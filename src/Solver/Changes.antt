-- ===== src/Solver/Changes.antt =====
-- The changeset of apk-tools/src/solver.c: the functions `cset_*` and `generate_changeset`. Their
-- calls of one another are tasks on a stack: a task is a call, or the rest of a call behind the
-- calls that it has made so far.
pub mod Kept
pub mod Pushed
pub mod Sound
pub mod Steps
pub mod Reach
pub mod Measure
pub mod Goes
pub mod Ends
pub mod Total
use alpine_linux_mac_os.Base.{
  ℕ, zero, suc, ◌+◌, ◌-◌, ◌%◌, ◌^◌, Bool, true, false, not, ◌&&◌, ◌||◌, Option, some, none, [], ◌∷◌,
  ◌++◌, List, map, ◌==◌, if◌then◌else◌,
}
use alpine_linux_mac_os.Dependency.Matching.{Relation, satisfies, dep_analyze}
use alpine_linux_mac_os.Solver.{
  Database, NameState, PackageState, State, Dep, Provide, Choice, Change, is_conflict, is_null,
  is_provided, set_name, set_pkg, each, short, bit, mark_error,
}
use alpine_linux_mac_os.Solver.Constraints.{get_tag, pkg_repos}
use alpine_linux_mac_os.Solver.Selection.{same_package}

pub data Task : Type 0 where
  -- `cset_gen_name_change` and its parts: behind the preprocessing of the name and of the chosen
  -- package; the dependencies that are left of the new package, with the old one; the end.
  name_change : ℕ → Task
  change_chosen : ℕ → Task
  change_package : ℕ → Task
  dependencies : Option ℕ → ℕ → List Dep → Task
  change_recorded : Option ℕ → ℕ → Task
  -- `cset_gen_name_preprocess`, and its loop over the providers.
  preprocess : ℕ → Task
  preprocess_provider : Provide → Task
  -- `cset_gen_name_remove`, and its part behind the reverse dependencies.
  remove : ℕ → Task
  removed : ℕ → Task
  -- `cset_check_removal_by_deps`, `cset_check_removal_by_iif` and `cset_check_install_by_iif`.
  removal_by_deps : ℕ → Task
  removal_by_iif : ℕ → Task
  install_by_iif : ℕ → Task
  -- `cset_track_deps_removed`, from a dependency on.
  track_removed : List Dep → Task
  -- `cset_gen_dep`, and its end for the package that was chosen before the call.
  gen_dep : Option ℕ → Dep → Task
  dep_done : Option ℕ → Option ℕ → Task

abbrev pub is_some : Option ℕ → Bool
is_some none = false
is_some (some p) = true

-- Whether the name's chosen package is of another name or missing.
abbrev pub chooses_itself : Database → State → ℕ → Bool
chooses_itself db s n = elim ((s.names n).chosen.pkg) as (λ _. Bool) [
  | none ↦ false
  | some p ↦ (db.pkg p).name == n
]

-- `record_change`.
unfoldable pub record_change : Database → Option ℕ → Option ℕ → State → State
unfolding get_tag pkg_repos
record_change db opkg npkg s =
    let old_tag = elim opkg as (λ _. ℕ) [
      | none ↦ 0
      | some o ↦ elim ((db.pkg o).ipkg) as (λ _. ℕ) [ none ↦ 0 | some t ↦ t ]
    ] in
    let new_tag = elim npkg as (λ _. ℕ) [
      | none ↦ 0
      | some p ↦ get_tag db (s.pkgs p).pinning_allowed (pkg_repos db p)
    ] in
    let again = elim npkg as (λ _. Bool) [
      | none ↦ false
      | some p ↦ (s.pkgs p).solver_flags.reinstall
    ] in
    let s1 = record s {
      changes =
          s.changes
          ++ record {
            old_pkg = opkg;
            old_repository_tag = old_tag;
            new_pkg = npkg;
            new_repository_tag = new_tag;
            reinstall = again;
          }
            ∷ [];
    } in
    elim npkg as (λ _. State) [
      | none ↦ record s1 { num_remove = s1.num_remove + 1 }
      | some p ↦ elim opkg as (λ _. State) [
        | none ↦ record s1 { num_install = s1.num_install + 1 }
        | some o ↦ record s1 {
          num_adjust = s1.num_adjust + bit (not (p == o) || again || not (new_tag == old_tag));
        }
      ]
    ]

-- The body of `cset_track_deps_added`.
unfoldable pub track_added : Dep → State → State
track_added d s =
    if is_conflict d then s else elim ((s.names d.target).installed_name) as (λ _. State) [
      | none ↦ s
      | some m ↦ set_name m (λ x. record x { requirers = short (x.requirers + 1) }) s
    ]

-- The packages of the loops of `apk_pkg_foreach_reverse_dependency` with APK_FOREACH_INSTALLED and
-- APK_DEP_SATISFIES: one task for each dependency that the package satisfies.
abbrev pub satisfied : Database → ℕ → ℕ → List Dep → List Task
unfolding dep_analyze
satisfied db p p0 [] = []
satisfied db p p0 (d ∷ ds) =
    let later = satisfied db p p0 ds in
    elim (dep_analyze db.stack (some (db.pkg p0).matched) d.spec (some (db.pkg p).matched))
      as (λ _. List Task) [ some satisfies ↦ remove p0 ∷ later | _ ↦ later ]

abbrev pub of_providers : Database → ℕ → List Provide → List Task
unfolding satisfied
of_providers db p [] = []
of_providers db p (q ∷ qs) =
    let later = of_providers db p qs in
    if is_some (db.pkg q.pkg).ipkg
    then satisfied db p q.pkg (db.pkg q.pkg).depends ++ later
    else later

abbrev pub of_names : Database → ℕ → List ℕ → List Task
unfolding of_providers
of_names db p [] = []
of_names db p (n ∷ ns) = of_providers db p (db.name n).providers ++ of_names db p ns

abbrev pub of_provides : Database → ℕ → List Dep → List Task
unfolding of_names
of_provides db p [] = []
of_provides db p (d ∷ ds) = of_names db p (db.name d.target).rdepends ++ of_provides db p ds

unfoldable pub reverse_dependencies : Database → ℕ → List Task
unfolding of_names of_provides
reverse_dependencies db p =
    of_names db p (db.name (db.pkg p).name).rdepends ++ of_provides db p (db.pkg p).provides

-- `cset_check_by_reverse_iif`, with the check for each name.
abbrev pub iif_names : Database → List Dep → List ℕ
iif_names db [] = []
iif_names db (d ∷ ds) = (db.name d.target).rinstall_if ++ iif_names db ds

unfoldable pub by_reverse_iif : Database → (ℕ → Task) → Option ℕ → List Task
by_reverse_iif db check none = []
by_reverse_iif db check (some p) =
    map check ((db.name (db.pkg p).name).rinstall_if ++ iif_names db (db.pkg p).provides)

-- The loop of `cset_check_install_by_iif`: all the rules hold.
unfoldable pub all_installed : Database → State → ℕ → List Dep → Bool
unfolding is_provided
all_installed db s p [] = true
all_installed db s p (d ∷ ds) =
    ((is_conflict d || (s.names d.target).changeset_processed)
      && is_provided db (some p) d (s.names d.target).chosen)
    && all_installed db s p ds

-- The loop of `cset_check_removal_by_iif`: a rule's package is removed.
unfoldable pub any_removed : State → List Dep → Bool
any_removed s [] = false
any_removed s (d ∷ ds) =
    ((s.names d.target).changeset_removed && not (is_some (s.names d.target).chosen.pkg))
    || any_removed s ds

-- `cset_gen_dep` up to its call of `cset_gen_name_change`: what it leaves to do.
unfoldable pub start_dep : Database → Option ℕ → Dep → State → State × List Task
unfolding is_provided mark_error
start_dep db ppkg d s =
    let c = (s.names d.target).chosen in
    if is_conflict d && s.ignore_conflict then (s, []) else (
      if is_provided db ppkg d c then s else mark_error ppkg s,
      name_change d.target ∷ dep_done ppkg c.pkg ∷ [],
    )

-- The loop of `cset_track_deps_removed` at a dependency.
unfoldable pub release : Dep → State → State × List Task
release d s =
    if is_conflict d
    then (s, [])
    else elim ((s.names d.target).installed_name) as (λ _. State × List Task) [
      | none ↦ (s, [])
      | some m ↦
          let s1 =
            set_name m (λ x. record x { requirers = short (x.requirers + (2 ^ 16 - 1)) }) s in
          if not ((s1.names m).requirers == 0) then (s1, []) else (
            s1,
            elim ((s1.names d.target).installed_pkg) as (λ _. List Task) [
              | none ↦ []
              | some p ↦ remove p ∷ []
            ],
          )
    ]

-- The package that provided a name before and is of another name than the chosen one.
abbrev pub orphan : Database → State → ℕ → List Task
orphan db s n = elim ((s.names n).installed_pkg) as (λ _. List Task) [
  | none ↦ []
  | some p ↦ if chooses_itself db s n then [] else remove p ∷ []
]

-- One task: the state behind it and the tasks that it leaves to do at once.
unfoldable pub perform : Database → Task → State → State × List Task
unfolding start_dep release record_change track_added reverse_dependencies by_reverse_iif
    all_installed any_removed mark_error
perform db (name_change n) s =
    (s, if (s.names n).changeset_processed then [] else preprocess n ∷ change_chosen n ∷ [])
perform db (change_chosen n) s = elim ((s.names n).chosen.pkg) as (λ _. State × List Task) [
  | none ↦ (s, [])
  | some p ↦ if (s.pkgs p).in_changeset then (s, []) else (
    set_pkg p (λ x. record x { in_changeset = true }) s,
    preprocess (db.pkg p).name
        ∷ (map (λ (d : Dep). preprocess d.target) (db.pkg p).provides ++ (change_package p ∷ [])),
  )
]
perform db (change_package p) s =
    let opkg = (s.names (db.pkg p).name).installed_pkg in
    (s, by_reverse_iif db removal_by_iif opkg ++ (dependencies opkg p (db.pkg p).depends ∷ []))
perform db (dependencies opkg p (d ∷ ds)) s =
    let (s1, tasks) = start_dep db (some p) d s in (s1, tasks ++ (dependencies opkg p ds ∷ []))
perform db (dependencies opkg p []) s = (
  record_change db opkg (some p) s,
  by_reverse_iif db install_by_iif (some p) ++ (change_recorded opkg p ∷ []),
)
perform db (change_recorded opkg p) s = (
  each track_added (db.pkg p).depends s,
  elim opkg as (λ _. List Task) [ none ↦ [] | some o ↦ track_removed (db.pkg o).depends ∷ [] ],
)
perform db (preprocess n) s =
    let s1 = set_name n (λ x. record x { changeset_processed = true }) s in
    if (s.names n).changeset_processed
    then (s, [])
    else (s1, orphan db s1 n ++ map preprocess_provider (db.name n).providers)
perform db (preprocess_provider p) s =
    let x = s.names (db.pkg p.pkg).name in
    (
      s,
      if same_package p.pkg x.installed_pkg && not (is_some x.chosen.pkg)
          then remove p.pkg ∷ []
          else [],
    )
perform db (remove p) s =
    let n = (db.pkg p).name in
    let s1 =
      set_pkg p (λ x. record x { in_changeset = true })
        (set_name n (λ x. record x { changeset_removed = true }) s) in
    if (s.pkgs p).in_changeset || chooses_itself db s n then (s, []) else (
      s1,
      reverse_dependencies db p ++ (by_reverse_iif db removal_by_iif (some p) ++ (removed p ∷ [])),
    )
perform db (removed p) s = (record_change db (some p) none s, track_removed (db.pkg p).depends ∷ [])
perform db (removal_by_deps p) s =
    let x = s.names (db.pkg p).name in
    (s, if x.requirers == 0 && not (is_some x.chosen.pkg) then remove p ∷ [] else [])
perform db (removal_by_iif n) s =
    let x = s.names n in
    (
      s,
      elim (x.installed_pkg) as (λ _. List Task) [
        | none ↦ []
        | some p ↦
            if not (is_some x.chosen.pkg)
              && (not x.changeset_processed && not x.changeset_removed)
              && any_removed s (db.pkg p).install_if
            then removal_by_deps p ∷ []
            else []
      ],
    )
perform db (install_by_iif n) s =
    let x = s.names n in
    (
      s,
      elim (x.chosen.pkg) as (λ _. List Task) [
        | none ↦ []
        | some p ↦
            if (x.seen && not x.changeset_processed) && all_installed db s p (db.pkg p).install_if
            then name_change n ∷ []
            else []
      ],
    )
perform db (track_removed []) s = (s, [])
perform db (track_removed (d ∷ ds)) s =
    let (s1, tasks) = release d s in (s1, tasks ++ (track_removed ds ∷ []))
perform db (gen_dep ppkg d) s = start_dep db ppkg d s
perform db (dep_done ppkg c) s = (
  elim c as (λ _. State) [ none ↦ s | some p ↦ if (s.pkgs p).error then mark_error ppkg s else s ],
  [],
)

-- The tasks of the stack, by rounds; `none` where the rounds run out.
unfoldable pub run : ℕ → Database → List Task → State → Option State
unfolding perform
run zero db ts s = none
run (suc fuel) db [] s = some s
run (suc fuel) db (t ∷ ts) s = let (s', more) = perform db t s in run fuel db (more ++ ts) s'

-- The first loop of `generate_changeset` over the installed packages.
unfoldable pub note_installed : Database → ℕ → State → State
note_installed db p s =
    let n = (db.pkg p).name in
    each
      (λ (d : Dep) t.
        if is_null d.spec.version
        then t
        else set_name d.target (λ x. record x { installed_name = some n }) t)
      (db.pkg p).provides
      (set_name n (λ x. record x { installed_pkg = some p; installed_name = some n }) s)

-- The state that `generate_changeset` begins with.
unfoldable pub begin_changes : Database → State → State
unfolding note_installed track_added
begin_changes db s =
    let reset = record s {
      changes = [];
      names =
          λ n. record (s.names n) { installed_pkg = none; installed_name = none; requirers = 0 };
    } in
    each (λ (p : ℕ). each track_added (db.pkg p).depends) db.installed
      (each (note_installed db) db.installed reset)

-- Its calls: for the packages installed, the world and the names installed.
unfoldable pub change_tasks : Database → List Dep → List Task
change_tasks db world =
    map removal_by_deps db.installed
    ++ (map (λ (d : Dep). gen_dep none d) world
        ++ map (λ (p : ℕ). name_change (db.pkg p).name) db.installed)

-- `generate_changeset`; its last assignment is the sum of the three counts.
unfoldable pub generate_changeset : ℕ → Database → List Dep → State → Option State
unfolding begin_changes change_tasks run
generate_changeset fuel db world s = run fuel db (change_tasks db world) (begin_changes db s)
