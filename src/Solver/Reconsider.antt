-- ===== src/Solver/Reconsider.antt =====
-- `reconsider_name` of apk-tools/src/solver.c: a name whose requirers, dependencies or install_if
-- rules have changed.
use alpine_linux_mac_os.Base.{
  ℕ, ◌+◌, Bool, true, false, not, ◌&&◌, ◌||◌, Option, some, none, [], ◌∷◌, List, ltb, ◌==◌,
  if◌then◌else◌,
}
use alpine_linux_mac_os.Solver.{
  Database, State, Dep, Provide, is_conflict, is_null, is_provided, set_name, set_pkg, each, short,
  bit,
}
use alpine_linux_mac_os.Solver.Queues.{queue_unresolved, disqualify_package, name_requirers_changed}
use alpine_linux_mac_os.Solver.Constraints.{
  dependency_satisfiable, inherit_pinning_and_flags, apply_constraint,
}

-- What the loop over the providers carries.
pub record Progress : Type 0 where
  pub state : State
  pub first_candidate : Option ℕ
  pub num_options : ℕ
  pub num_tag_not_ok : ℕ
  pub is_iif : Bool
  pub is_no_iif : Bool
  pub auto_selectable : Bool

-- The loop over what a package provides, in `exclude_non_providers`: one is reached that keeps it.
unfoldable pub provides_or_skips : ℕ → Bool → List Dep → Bool
provides_or_skips must skip [] = false
provides_or_skips must skip (d ∷ ds) =
    (d.target == must || (skip && is_null d.spec.version)) || provides_or_skips must skip ds

module _ (db : Database) where
  unfoldable pub exclude_non_provider : ℕ → Bool → Provide → State → State
  unfolding provides_or_skips disqualify_package
  exclude_non_provider must skip p s =
      if (db.pkg p.pkg).name == must
        || not (s.pkgs p.pkg).pkg_selectable
        || (skip && is_null p.version)
        || provides_or_skips must skip (db.pkg p.pkg).provides
      then s
      else disqualify_package db p.pkg s

  unfoldable pub exclude_non_providers : ℕ → ℕ → Bool → State → State
  unfolding exclude_non_provider
  exclude_non_providers n must skip s =
      if n == must || s.ignore_conflict
      then s
      else each (exclude_non_provider must skip) (db.name n).providers s

  -- `merge_index` on `merge_depends` of a name.
  abbrev pub merge_dependency : ℕ → Dep → State → State
  merge_dependency options d s =
      if is_conflict d || not ((s.names d.target).merge_depends == options)
      then s
      else set_name d.target (λ x. record x { merge_depends = short (options + 1) }) s

  -- `merge_index` on `merge_provides` of a name that is provided with a version.
  abbrev pub merge_provided : ℕ → ℕ → Bool → State → State
  merge_provided options n virtual s =
      if not ((s.names n).merge_provides == options)
      then s
      else set_name n
          (λ x. record x {
            merge_provides = short (options + 1);
            has_virtual_provides = x.has_virtual_provides || virtual;
          })
          s

  -- The loop that disqualifies a package with a dependency that is not satisfiable.
  unfoldable pub check_dependencies : ℕ → List Dep → State → State
  unfolding dependency_satisfiable disqualify_package
  check_dependencies p [] s = s
  check_dependencies p (d ∷ ds) s =
      let later = check_dependencies p ds s in
      if dependency_satisfiable db s (some p) d then later else disqualify_package db p s

  -- The loop over the install_if rules.
  unfoldable pub check_install_if : ℕ → List Dep → State → State
  unfolding is_provided queue_unresolved
  check_install_if p [] s = s
  check_install_if p (d ∷ ds) s =
      let later = check_install_if p ds s in
      let needed =
        queue_unresolved d.target false
          (set_name d.target (λ x. record x { iif_needed = true }) s) in
      let failed : Bool → State → State =
        λ f. set_pkg p (λ x. record x { iif_triggered = false; iif_failed = f }) in
      if not (s.names d.target).locked
      then failed false (if is_conflict d then needed else s)
      else if not (is_provided db (some p) d (s.names d.target).chosen)
      then failed true s
      else later

  unfoldable pub trigger_install_if : ℕ → State → State
  unfolding check_install_if inherit_pinning_and_flags
  trigger_install_if p s =
      let x = s.pkgs p in
      let s1 =
        if not x.iif_triggered && not x.iif_failed
        then check_install_if p (db.pkg p).install_if
            (set_pkg p (λ y. record y { iif_triggered = true; iif_failed = false }) s)
        else s in
      if (s1.pkgs p).iif_triggered
      then each (λ (d : Dep) t. inherit_pinning_and_flags db p (t.names d.target).chosen.pkg t)
          (db.pkg p).install_if s1
      else s1

  -- `is_provider_auto_selectable`.
  unfoldable pub is_auto_selectable : State → Provide → Bool
  is_auto_selectable s p =
      not (is_null p.version)
      || not ((db.pkg p.pkg).provider_priority == 0)
      || not ((s.names (db.pkg p.pkg).name).requirers == 0)

  -- A provider of a name that is required: its dependencies and what it provides are merged.
  unfoldable pub merge_provider : Provide → Progress → Progress
  unfolding is_auto_selectable
  merge_provider p g =
      let i = db.pkg p.pkg in
      let options = g.num_options in
      let s1 = set_pkg p.pkg (λ x. record x { dependencies_merged = true }) g.state in
      let s2 = each (merge_dependency options) i.depends s1 in
      let s3 = merge_provided options i.name (is_null p.version) s2 in
      let s4 =
        each (λ (d : Dep). merge_provided options d.target (is_null d.spec.version)) i.provides
          s3 in
      record {
        state = s4;
        first_candidate = elim (g.first_candidate) [ none ↦ some p.pkg | some c ↦ some c ];
        num_options = options + 1;
        num_tag_not_ok = g.num_tag_not_ok + bit (not (s4.pkgs p.pkg).tag_ok);
        is_iif = g.is_iif;
        is_no_iif = g.is_no_iif;
        auto_selectable = g.auto_selectable || is_auto_selectable s4 p;
      }

  -- The body of the loop over the providers.
  unfoldable pub consider : Bool → Bool → ℕ → Provide → Progress → Progress
  unfolding check_dependencies trigger_install_if merge_provider
  consider reevaluate_deps reevaluate_iif n p g =
      let s1 = set_pkg p.pkg (λ x. record x { dependencies_merged = false }) g.state in
      let s2 =
        if reevaluate_deps && (s1.pkgs p.pkg).pkg_selectable
        then check_dependencies p.pkg (db.pkg p.pkg).depends s1
        else s1 in
      let s3 = if reevaluate_iif then trigger_install_if p.pkg s2 else s2 in
      let x = s3.pkgs p.pkg in
      let g' = record g {
        state = s3;
        is_iif = g.is_iif || x.iif_triggered;
        is_no_iif = g.is_no_iif && x.iif_failed;
        auto_selectable = g.auto_selectable || x.iif_triggered;
      } in
      if not (s2.pkgs p.pkg).pkg_selectable
      then record g { state = s2 }
      else if (s3.names n).requirers == 0
      then g'
      else merge_provider p g'

  unfoldable pub consider_all : Bool → Bool → ℕ → List Provide → Progress → Progress
  unfolding consider
  consider_all deps iif n [] g = g
  consider_all deps iif n (p ∷ ps) g = consider_all deps iif n ps (consider deps iif n p g)

  -- A dependency that all the options have in common.
  unfoldable pub require_common : ℕ → ℕ → Dep → State → State
  unfolding name_requirers_changed inherit_pinning_and_flags
  require_common options p d s =
      let m = d.target in
      let x = s.names m in
      let s1 = set_name m (λ y. record y { merge_depends = 0 }) s in
      let s2 =
        name_requirers_changed db m
          (set_name m (λ y. record y { requirers = short (y.requirers + 1) }) s1) in
      if x.merge_depends == options && x.requirers == 0
      then each (λ (q : Provide). inherit_pinning_and_flags db q.pkg (some p)) (db.name m).providers
          s2
      else s1

  -- The dependency of the only option.
  unfoldable pub require_only : ℕ → ℕ → Dep → State → State
  unfolding apply_constraint
  require_only options p d s =
      let s1 = set_name d.target (λ y. record y { merge_depends = 0 }) s in
      if (s.names d.target).merge_depends == options then apply_constraint db (some p) d s1 else s1

  -- What all the options provide excludes the packages that do not provide the name.
  unfoldable pub exclude_common : ℕ → ℕ → ℕ → State → State
  unfolding exclude_non_providers
  exclude_common options n m s =
      let s1 = set_name m (λ y. record y { merge_provides = 0 }) s in
      if (s.names m).merge_provides == options
      then exclude_non_providers m n (s.names m).has_virtual_provides s1
      else s1

  -- What follows the loop for the first candidate.
  unfoldable pub propagate : ℕ → ℕ → ℕ → State → State
  unfolding require_common require_only exclude_common
  propagate n p options s =
      let i = db.pkg p in
      let s1 =
        each
          (λ (q : Provide).
            set_pkg q.pkg (λ x. record x { dependencies_used = x.dependencies_merged }))
          (db.name n).providers s in
      let s2 =
        if options == 1
        then each (require_only options p) i.depends s1
        else each (require_common options p) i.depends s1 in
      let s3 =
        each (λ (d : Dep). exclude_common options n d.target) i.provides
          (exclude_common options n i.name s2) in
      each (λ (d : Dep). set_name d.target (λ y. record y { has_virtual_provides = false }))
        i.provides (set_name i.name (λ y. record y { has_virtual_provides = false }) s3)

  abbrev pub all_reverse_done : State → List ℕ → Bool
  all_reverse_done s [] = true
  all_reverse_done s (m ∷ ms) =
      not ((s.names m).seen && not (s.names m).locked) && all_reverse_done s ms

  -- The assignments to the name behind the loop.
  unfoldable pub record_options : ℕ → Progress → State
  record_options n g =
      set_name n
        (λ x. record x {
          has_options = ltb 1 g.num_options || not (g.num_tag_not_ok == 0);
          has_iif = g.is_iif;
          no_iif = g.is_no_iif;
          has_auto_selectable = g.auto_selectable;
        })
        g.state

  unfoldable pub reconsider_name : ℕ → State → State
  unfolding consider_all record_options propagate queue_unresolved
  reconsider_name n s =
      let x = s.names n in
      let s0 = set_name n (λ y. record y { reevaluate_deps = false; reevaluate_iif = false }) s in
      let g = consider_all x.reevaluate_deps x.reevaluate_iif n (db.name n).providers (record {
        state = s0;
        first_candidate = none;
        num_options = 0;
        num_tag_not_ok = 0;
        is_iif = false;
        is_no_iif = true;
        auto_selectable = false;
      }) in
      let before = (g.state.names n).has_auto_selectable in
      let reevaluate = (g.auto_selectable && not before) || (not g.auto_selectable && before) in
      let s1 = record_options n g in
      let s2 = elim (g.first_candidate) as (λ _. State) [
        | none ↦ s1
        | some p ↦ propagate n p g.num_options s1
      ] in
      let done = all_reverse_done s2 (db.name n).rdepends in
      queue_unresolved n reevaluate (set_name n (λ y. record y { reverse_deps_done = done }) s2)
