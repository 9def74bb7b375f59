-- ===== src/Solver/Grows/Search.antt =====
-- The discovery, the main loop and `apk_solver_solve` of apk-tools/src/solver.c: what is locked stays,
-- and a solution without errors is complete.
use alpine_linux_mac_os.Base.{
  ℕ, zero, suc, ◌+◌, ◌^◌, ◌≤◌, true, not, ◌&&◌, Option, some, none, [], ◌∷◌, ◌++◌, List, ◌==◌, ◌≡◌,
  refl, ap, ◌∙◌, subst, Bool-cases, Option-cases, inl, inr, ◌⊎◌, All,
}
use mathlib.Core.Option.{some-injective}
use alpine_linux_mac_os.Solver.{
  Database, Flags, State, Dep, each, no_flags, new_name, new_package, word,
}
use alpine_linux_mac_os.Solver.Queues.{dequeue_next_name}
use alpine_linux_mac_os.Solver.Reconsider.{reconsider_name}
use alpine_linux_mac_os.Solver.Selection.{select_package}
use alpine_linux_mac_os.Solver.Discovery.{
  Visit, enter, scan, leave, number, discover_package, order_of, visit, discover,
}
use alpine_linux_mac_os.Solver.Changes.Kept.{Flagged}
use alpine_linux_mac_os.Solver.Changes.Reach.{NewProvided, changes_provided}
use alpine_linux_mac_os.Solver.Solve.{
  apply_world, world_visits, break_world, begin_state, turn, settle, resolve, pass, solve,
}
use alpine_linux_mac_os.Solver.Grows.{
  Grows, Grows-refl, Grows-trans, same-Grows, set_name-Grows, set_pkg-Grows, if-Grows, each-Grows,
}
use alpine_linux_mac_os.Solver.Grows.Queues.{apply_constraint-Grows}
use alpine_linux_mac_os.Solver.Grows.Reconsider.{reconsider_name-Grows}
use alpine_linux_mac_os.Solver.Grows.Select.{select_package-Grows}

List-cases : {A : Type 0} (xs : List A) → (xs ≡ []) ⊎ ((x : A) × (ys : List A) × (xs ≡ x ∷ ys))
List-cases [] = inl refl
List-cases (x ∷ xs) = inr (x, xs, refl)

-- The state of a result, where it keeps what is locked.
taken :
    (s u t : State) (m n : ℕ)
    → Grows s u
    → ◌≡◌ {A = Option (ℕ × State)} (some (m, u)) (some (n, t))
    → Grows s t
taken s u t m n g e =
    subst (Grows s) (ap (λ (r : ℕ × State). r.1) (some-injective (m, u) (n, t) e)) g

dequeue-Grows : (s t : State) (n : ℕ) → dequeue_next_name s ≡ some (n, t) → Grows s t
unfolding dequeue_next_name
dequeue-Grows s t n h = elim (List-cases s.resolving) [
  | inr (m, ms, e) ↦
      taken s (record s { resolving = ms }) t m n (same-Grows refl refl refl)
        (rw (dequeue_next_name, e) at h)
  | inl e ↦ elim (List-cases s.selectable) [
    | inr (m, ms, k) ↦
        taken s (record s { selectable = ms }) t m n (same-Grows refl refl refl)
          (rw (dequeue_next_name, e, k) at h)
    | inl k ↦ elim (List-cases s.unresolved) [
      | inr (m, ms, l) ↦
          taken s (record s { unresolved = ms }) t m n (same-Grows refl refl refl)
            (rw (dequeue_next_name, e, k, l) at h)
      | inl l ↦
          let no : ◌≡◌ {A = Option (ℕ × State)} none (some (n, t)) =
            rw (dequeue_next_name, e, k, l) at h in
          absurd cc
    ]
  ]
]

pub turn-Grows : (db : Database) (s t : State) → turn db s ≡ some t → Grows s t
unfolding turn
turn-Grows db s t h = elim (List-cases s.dirty) [
  | inr (n, ns, e) ↦
      let u = record s { dirty = ns } in
      subst (Grows s) (some-injective (reconsider_name db n u) t (rw (turn, e) at h))
        (Grows-trans {t = u} (same-Grows refl refl refl) (reconsider_name-Grows db n u))
  | inl e ↦ elim (Option-cases (dequeue_next_name s)) [
    | inl k ↦ let no : none ≡ some t = rw (turn, e, k) at h in absurd cc
    | inr ((n, u), k) ↦
        subst (Grows s) (some-injective (select_package db n u) t (rw (turn, e, k) at h))
          (Grows-trans (dequeue-Grows s u n k) (select_package-Grows db n u))
  ]
]

settle-Grows : (fuel : ℕ) (db : Database) (s t : State) → settle fuel db s ≡ some t → Grows s t
unfolding settle
settle-Grows zero db s t h = absurd cc
settle-Grows (suc fuel) db s t h = elim (Option-cases (turn db s)) [
  | inl e ↦ subst (Grows s) (some-injective s t (rw (settle, e) at h)) (Grows-refl s)
  | inr (u, e) ↦ Grows-trans (turn-Grows db s u e) (settle-Grows fuel db u t (rw (settle, e) at h))
]

visit-Grows : (db : Database) (v : Visit) (s : State) → Grows s (visit db v s).0
unfolding visit discover_package
visit-Grows db (enter n) s = elim (Bool-cases (s.names n).seen) [
  | inl e ↦ rw (visit, e) (Grows-refl s)
  | inr e ↦
      rw (visit, e)
        (set_name-Grows n (λ x. record x { seen = true; no_iif = true }) s (λ x. refl) (λ x. refl))
]
visit-Grows db (scan n v []) s = Grows-refl s
visit-Grows db (scan n v (p ∷ ps)) s = elim (Bool-cases (s.pkgs p.pkg).seen) [
  | inl e ↦ rw (visit, e) (Grows-refl s)
  | inr e ↦ rw (visit, e) (set_pkg-Grows p.pkg (discover_package db p.pkg s) s (λ x. refl))
]
visit-Grows db (leave n v p ps) s =
    set_name-Grows n (λ x. record x { no_iif = x.no_iif && (s.pkgs p.pkg).iif_failed }) s
      (λ x. refl) (λ x. refl)
visit-Grows db (number n v) s =
    Grows-trans {t = record s { order_id = word (s.order_id + 1) }} (same-Grows refl refl refl) (
      set_name-Grows n (λ x. record x { order_id = order_of db n v s.order_id }) _ (λ x. refl)
        (λ x. refl))

discover-Grows :
    (fuel : ℕ) (db : Database) (vs : List Visit) (s t : State)
    → discover fuel db vs s ≡ some t
    → Grows s t
unfolding discover
discover-Grows zero db vs s t e = absurd cc
discover-Grows (suc fuel) db [] s t e = subst (Grows s) (some-injective s t e) (Grows-refl s)
discover-Grows (suc fuel) db (v ∷ vs) s t e =
    Grows-trans (visit-Grows db v s)
      (discover-Grows fuel db ((visit db v s).1 ++ vs) (visit db v s).0 t e)

apply_world-Grows : (db : Database) (d : Dep) (s : State) → Grows s (apply_world db d s)
unfolding apply_world
apply_world-Grows db d s =
    let u = record s { pinning_inherit = 2 ^ d.spec.repository_tag } in
    if-Grows s d.spec.broken _ _ (Grows-refl s)
      (Grows-trans {t = u} (same-Grows refl refl refl) (apply_constraint-Grows db none d u))

pub resolve-Grows :
    (fuel : ℕ) (db : Database) (world : List Dep) (s t : State)
    → resolve fuel db world s ≡ some t
    → Grows s t
unfolding resolve
resolve-Grows fuel db world s t h = elim (Option-cases (discover fuel db (world_visits world) s)) [
  | inl e ↦ let no : none ≡ some t = rw (resolve, e) at h in absurd cc
  | inr (u, e) ↦
      let v = each (apply_world db) world u in
      let w = record v { flags_inherit = no_flags; pinning_inherit = 0 } in
      Grows-trans (discover-Grows fuel db (world_visits world) s u e) (
        Grows-trans (each-Grows (apply_world db) world u (apply_world-Grows db)) (
          Grows-trans {t = w} (same-Grows refl refl refl)
            (settle-Grows fuel db w t (rw (resolve, e) at h))))
]

-- A turn of the main loop keeps the lock and the choice of each locked name, and the count of errors
-- does not fall.
pub turn_final :
    (db : Database) (s t : State) (n : ℕ)
    → turn db s ≡ some t
    → (s.names n).locked ≡ true
    → ((t.names n).locked ≡ true)
      × ((t.names n).chosen ≡ (s.names n).chosen)
      × (s.errors ≤ t.errors)
turn_final db s t n h l = let g = turn-Grows db s t h in (g.locked n l, g.chosen n l, g.errors)

pass_provided :
    (fuel : ℕ) (db : Database) (world : List Dep) (s t : State)
    → Flagged s
    → pass fuel db world s ≡ some t
    → t.errors ≡ 0
    → All (λ c. NewProvided db t c.new_pkg) t.changes
unfolding pass
pass_provided fuel db world s t f h z = elim (Option-cases (resolve fuel db world s)) [
  | inl e ↦ let no : none ≡ some t = rw (pass, e) at h in absurd cc
  | inr (u, e) ↦
      changes_provided fuel db world u t ((resolve-Grows fuel db world s u e).flagged f)
        (rw (pass, e) at h) z
]

-- Where the solver ends with no error counted, from a state where a package in error has been counted:
-- each dependency of the new package of each change is provided by the choice of its name, or is a
-- conflict while conflicts are ignored.
pub solve_provided :
    (restarts fuel : ℕ) (db : Database) (flags : Flags) (world left : List Dep) (s t : State)
    → Flagged s
    → solve restarts fuel db flags world s ≡ some (t, left)
    → t.errors ≡ 0
    → All (λ c. NewProvided db t c.new_pkg) t.changes
unfolding solve begin_state
solve_provided zero fuel db flags world left s t f h z = absurd cc
solve_provided (suc restarts) fuel db flags world left s t f h z =
    elim (Option-cases (pass fuel db world s)) [
      | inl e ↦
          let no : ◌≡◌ {A = Option (State × List Dep)} none (some (t, left)) = rw (solve, e) at h in
          absurd cc
      | inr (u, e) ↦ elim (Bool-cases (not (u.errors == 0) && db.force_broken_world)) [
        | inl k ↦
            let start = begin_state db flags (λ _. new_name) (λ _. new_package) in
            let again = record start {
              num_install = u.num_install;
              num_remove = u.num_remove;
              num_adjust = u.num_adjust;
            } in
            solve_provided restarts fuel db flags (break_world u world) left again t
              (λ p x. absurd cc) (rw (solve, e, k) at h) z
        | inr k ↦
            let pair : ◌≡◌ {A = State × List Dep} (u, world) (t, left) =
              some-injective (u, world) (t, left) (rw (solve, e, k) at h) in
            let same : u ≡ t = ap (λ (r : State × List Dep). r.0) pair in
            pass_provided fuel db world s t f (e ∙ ap some same) z
      ]
    ]
