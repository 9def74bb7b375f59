-- ===== src/Solver/Solve.antt =====
-- `apk_solver_solve` of apk-tools/src/solver.c, and `apk_solver_set_name_flags`. The world is in the
-- order that the code sorts it into.
use alpine_linux_mac_os.Base.{
  ℕ, zero, suc, ◌^◌, Bool, true, false, not, ◌&&◌, Option, some, none, [], ◌∷◌, List, ◌==◌,
  if◌then◌else◌,
}
use alpine_linux_mac_os.Solver.{
  Database, NameState, PackageState, State, Dep, Flags, no_flags, join, Provide, new_name,
  new_package, set_pkg, each, default_pinning_mask,
}
use alpine_linux_mac_os.Solver.Queues.{dequeue_next_name}
use alpine_linux_mac_os.Solver.Discovery.{Visit, enter, discover}
use alpine_linux_mac_os.Solver.Constraints.{pinning_mask_repos, apply_constraint}
use alpine_linux_mac_os.Solver.Reconsider.{reconsider_name}
use alpine_linux_mac_os.Solver.Selection.{select_package}
use alpine_linux_mac_os.Solver.Changes.{generate_changeset}

-- `apk_solver_set_name_flags`, on the states of the packages.
unfoldable pub set_name_flags : Database → ℕ → Flags → Flags → State → State
set_name_flags db n flags inheritable s =
    each
      (λ (p : Provide). set_pkg p.pkg (λ x. record x {
        solver_flags = join x.solver_flags flags;
        solver_flags_inheritable = join x.solver_flags_inheritable inheritable;
      }))
      (db.name n).providers s

-- The state behind `restart:`, for the states of names and packages.
unfoldable pub begin_state : Database → Flags → (ℕ → NameState) → (ℕ → PackageState) → State
unfolding pinning_mask_repos
begin_state db flags names pkgs = record {
  names = names;
  pkgs = pkgs;
  dirty = [];
  unresolved = [];
  selectable = [];
  resolving = [];
  errors = 0;
  flags_inherit = flags;
  pinning_inherit = 0;
  default_repos = pinning_mask_repos db default_pinning_mask;
  order_id = 0;
  ignore_conflict = flags.ignore_conflict;
  changes = [];
  num_install = 0;
  num_remove = 0;
  num_adjust = 0;
}

-- The calls of the first loop over the world.
abbrev pub world_visits : List Dep → List Visit
world_visits [] = []
world_visits (d ∷ ds) = if d.spec.broken then world_visits ds else enter d.target ∷ world_visits ds

unfoldable pub apply_world : Database → Dep → State → State
unfolding apply_constraint
apply_world db d s =
    if d.spec.broken
    then s
    else apply_constraint db none d (record s { pinning_inherit = 2 ^ d.spec.repository_tag })

-- One turn of the main loop: a dirty name is reconsidered, else the next name is resolved; `none`
-- where the loop ends.
unfoldable pub turn : Database → State → Option State
unfolding reconsider_name dequeue_next_name select_package
turn db s = elim (s.dirty) [
  | n ∷ ns ↦ some (reconsider_name db n (record s { dirty = ns }))
  | [] ↦ elim (dequeue_next_name s) [ none ↦ none | some (n, t) ↦ some (select_package db n t) ]
]

-- The main loop, by turns.
unfoldable pub settle : ℕ → Database → State → Option State
unfolding turn
settle zero db s = none
settle (suc fuel) db s = elim (turn db s) [ none ↦ some s | some t ↦ settle fuel db t ]

-- From the discovery of the world to the end of the main loop.
unfoldable pub resolve : ℕ → Database → List Dep → State → Option State
unfolding discover apply_world settle
resolve fuel db world s = elim (discover fuel db (world_visits world) s) [
  | none ↦ none
  | some t ↦
      settle fuel db
        (record (each (apply_world db) world t) { flags_inherit = no_flags; pinning_inherit = 0 })
]

-- The dependencies of the world that are disabled before a restart.
unfoldable pub break_dep : State → Dep → Dep
break_dep s d =
    let broken = elim ((s.names d.target).chosen.pkg) as (λ _. Bool) [
      | none ↦ true
      | some p ↦ (s.pkgs p).error
    ] in
    if broken then record d { spec = record (d.spec) { broken = true } } else d

unfoldable pub break_world : State → List Dep → List Dep
unfolding break_dep
break_world s [] = []
break_world s (d ∷ ds) = break_dep s d ∷ break_world s ds

-- One pass up to the changeset.
unfoldable pub pass : ℕ → Database → List Dep → State → Option State
unfolding resolve generate_changeset
pass fuel db world s = elim (resolve fuel db world s) [
  | none ↦ none
  | some t ↦ generate_changeset fuel db world t
]

-- `apk_solver_solve`: the state with the count of errors and the changeset, and the world with its
-- broken dependencies. The number of restarts is bounded, as that of the rounds of each loop. The
-- counts of the changeset are not reset by a restart.
unfoldable pub solve : ℕ → ℕ → Database → Flags → List Dep → State → Option (State × List Dep)
unfolding pass begin_state break_world
solve zero fuel db flags world s = none
solve (suc restarts) fuel db flags world s = elim (pass fuel db world s) [
  | none ↦ none
  | some t ↦ elim (not (t.errors == 0) && db.force_broken_world) [
    | false ↦ some (t, world)
    | true ↦
        let fresh = begin_state db flags (λ _. new_name) (λ _. new_package) in
        solve restarts fuel db flags (break_world t world) (record fresh {
          num_install = t.num_install;
          num_remove = t.num_remove;
          num_adjust = t.num_adjust;
        })
  ]
]

-- The layer of a dependency of the world, behind the solver: that of the chosen package, if any.
unfoldable pub chosen_layer : Database → State → Dep → Option ℕ
chosen_layer db s d = elim ((s.names d.target).chosen.pkg) [
  | none ↦ none
  | some p ↦ some (db.pkg p).layer
]
