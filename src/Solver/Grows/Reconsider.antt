-- ===== src/Solver/Grows/Reconsider.antt =====
-- `reconsider_name` of apk-tools/src/solver.c takes nothing back.
use alpine_linux_mac_os.Base.{
  ℕ, ◌+◌, Bool, true, false, not, ◌&&◌, ◌||◌, some, none, [], ◌∷◌, List, ltb, ◌==◌, if◌then◌else◌,
  refl,
}
use alpine_linux_mac_os.Solver.{
  Database, State, Dep, Provide, set_name, set_pkg, is_provided, is_conflict, is_null, short,
}
use alpine_linux_mac_os.Solver.Constraints.{dependency_satisfiable, inherit_pinning_and_flags}
use alpine_linux_mac_os.Solver.Reconsider.{
  Progress, provides_or_skips, exclude_non_provider, exclude_non_providers, merge_dependency,
  merge_provided, check_dependencies, check_install_if, trigger_install_if, merge_provider,
  consider, consider_all, require_common, require_only, exclude_common, propagate, record_options,
  all_reverse_done, reconsider_name,
}
use alpine_linux_mac_os.Solver.Grows.{
  Grows, Grows-refl, Grows-trans, set_name-Grows, set_pkg-Grows, if-Grows, option-Grows, each-Grows,
}
use alpine_linux_mac_os.Solver.Grows.Queues.{
  queue_unresolved-Grows, disqualify_package-Grows, name_requirers_changed-Grows,
  inherit_pinning_and_flags-Grows, apply_constraint-Grows,
}

module _ (db : Database) where
  exclude_non_provider-Grows :
      (must : ℕ) (skip : Bool) (p : Provide) (s : State)
      → Grows s (exclude_non_provider db must skip p s)
  unfolding exclude_non_provider
  exclude_non_provider-Grows must skip p s =
      if-Grows s
        ((db.pkg p.pkg).name == must
          || not (s.pkgs p.pkg).pkg_selectable
          || (skip && is_null p.version)
          || provides_or_skips must skip (db.pkg p.pkg).provides)
        _ _ (Grows-refl s) (disqualify_package-Grows db p.pkg s)

  exclude_non_providers-Grows :
      (n must : ℕ) (skip : Bool) (s : State) → Grows s (exclude_non_providers db n must skip s)
  unfolding exclude_non_providers
  exclude_non_providers-Grows n must skip s =
      if-Grows s (n == must || s.ignore_conflict) _ _ (Grows-refl s) (
        each-Grows (exclude_non_provider db must skip) (db.name n).providers s
          (exclude_non_provider-Grows must skip))

  merge_dependency-Grows : (k : ℕ) (d : Dep) (s : State) → Grows s (merge_dependency db k d s)
  merge_dependency-Grows k d s =
      if-Grows s (is_conflict d || not ((s.names d.target).merge_depends == k)) _ _ (Grows-refl s) (
        set_name-Grows d.target (λ x. record x { merge_depends = short (k + 1) }) s (λ x. refl)
          (λ x. refl))

  merge_provided-Grows : (k n : ℕ) (v : Bool) (s : State) → Grows s (merge_provided db k n v s)
  merge_provided-Grows k n v s =
      if-Grows s (not ((s.names n).merge_provides == k)) _ _ (Grows-refl s) (
        set_name-Grows n
          (λ x. record x {
            merge_provides = short (k + 1);
            has_virtual_provides = x.has_virtual_provides || v;
          })
          s (λ x. refl) (λ x. refl))

  check_dependencies-Grows :
      (p : ℕ) (ds : List Dep) (s : State) → Grows s (check_dependencies db p ds s)
  unfolding check_dependencies
  check_dependencies-Grows p [] s = Grows-refl s
  check_dependencies-Grows p (d ∷ ds) s =
      if-Grows s (dependency_satisfiable db s (some p) d) _ _ (check_dependencies-Grows p ds s)
        (disqualify_package-Grows db p s)

  check_install_if-Grows :
      (p : ℕ) (ds : List Dep) (s : State) → Grows s (check_install_if db p ds s)
  unfolding check_install_if
  check_install_if-Grows p [] s = Grows-refl s
  check_install_if-Grows p (d ∷ ds) s =
      let failed = λ (f : Bool) (t : State).
        set_pkg-Grows p (λ x. record x { iif_triggered = false; iif_failed = f }) t (λ x. refl) in
      let needed =
        Grows-trans
          (set_name-Grows d.target (λ x. record x { iif_needed = true }) s (λ x. refl) (λ x. refl))
          (queue_unresolved-Grows d.target false _) in
      if-Grows s (not (s.names d.target).locked) _ _
        (Grows-trans (if-Grows s (is_conflict d) _ _ needed (Grows-refl s)) (failed false _))
        (if-Grows s (not (is_provided db (some p) d (s.names d.target).chosen)) _ _ (failed true s)
          (check_install_if-Grows p ds s))

  trigger_install_if-Grows : (p : ℕ) (s : State) → Grows s (trigger_install_if db p s)
  unfolding trigger_install_if
  trigger_install_if-Grows p s =
      let x = s.pkgs p in
      let t =
        if not x.iif_triggered && not x.iif_failed
        then check_install_if db p (db.pkg p).install_if
            (set_pkg p (λ y. record y { iif_triggered = true; iif_failed = false }) s)
        else s in
      let first : Grows s t =
        if-Grows s (not x.iif_triggered && not x.iif_failed) _ _
          (Grows-trans
            (set_pkg-Grows p (λ y. record y { iif_triggered = true; iif_failed = false }) s
              (λ x. refl))
            (check_install_if-Grows p (db.pkg p).install_if _))
          (Grows-refl s) in
      if-Grows s (t.pkgs p).iif_triggered _ _
        (Grows-trans first (
          each-Grows (λ (d : Dep) u. inherit_pinning_and_flags db p (u.names d.target).chosen.pkg u)
            (db.pkg p).install_if t
            (λ d u. inherit_pinning_and_flags-Grows db p (u.names d.target).chosen.pkg u)))
        first

  merge_provider-Grows : (p : Provide) (g : Progress) → Grows g.state (merge_provider db p g).state
  unfolding merge_provider
  merge_provider-Grows p g =
      let i = db.pkg p.pkg in
      Grows-trans
        (set_pkg-Grows p.pkg (λ x. record x { dependencies_merged = true }) g.state (λ x. refl))
        (Grows-trans
          (each-Grows (merge_dependency db g.num_options) i.depends _
            (merge_dependency-Grows g.num_options))
          (Grows-trans (merge_provided-Grows g.num_options i.name (is_null p.version) _) (
            each-Grows
              (λ (d : Dep). merge_provided db g.num_options d.target (is_null d.spec.version))
              i.provides _
              (λ d t. merge_provided-Grows g.num_options d.target (is_null d.spec.version) t))))

  if_state-Grows :
      (s : State) (b : Bool) (x y : Progress)
      → Grows s x.state
      → Grows s y.state
      → Grows s (if b then x else y).state
  if_state-Grows s true x y g h = g
  if_state-Grows s false x y g h = h

  consider-Grows :
      (a b : Bool) (n : ℕ) (p : Provide) (g : Progress)
      → Grows g.state (consider db a b n p g).state
  unfolding consider
  consider-Grows a b n p g =
      let s1 = set_pkg p.pkg (λ x. record x { dependencies_merged = false }) g.state in
      let s2 =
        if a && (s1.pkgs p.pkg).pkg_selectable
        then check_dependencies db p.pkg (db.pkg p.pkg).depends s1
        else s1 in
      let s3 = if b then trigger_install_if db p.pkg s2 else s2 in
      let first =
        set_pkg-Grows p.pkg (λ x. record x { dependencies_merged = false }) g.state (λ x. refl) in
      let second : Grows g.state s2 = Grows-trans first (
        if-Grows s1 (a && (s1.pkgs p.pkg).pkg_selectable) _ _
          (check_dependencies-Grows p.pkg (db.pkg p.pkg).depends s1) (Grows-refl s1)) in
      let third : Grows g.state s3 =
        Grows-trans second
          (if-Grows s2 b _ _ (trigger_install_if-Grows p.pkg s2) (Grows-refl s2)) in
      let x = s3.pkgs p.pkg in
      let g' : Progress = record g {
        state = s3;
        is_iif = g.is_iif || x.iif_triggered;
        is_no_iif = g.is_no_iif && x.iif_failed;
        auto_selectable = g.auto_selectable || x.iif_triggered;
      } in
      if_state-Grows g.state (not (s2.pkgs p.pkg).pkg_selectable) _ _ second (
        if_state-Grows g.state ((s3.names n).requirers == 0) _ _ third
          (Grows-trans third (merge_provider-Grows p g')))

  consider_all-Grows :
      (a b : Bool) (n : ℕ) (ps : List Provide) (g : Progress)
      → Grows g.state (consider_all db a b n ps g).state
  unfolding consider_all
  consider_all-Grows a b n [] g = Grows-refl g.state
  consider_all-Grows a b n (p ∷ ps) g =
      Grows-trans (consider-Grows a b n p g) (consider_all-Grows a b n ps (consider db a b n p g))

  require_common-Grows : (k p : ℕ) (d : Dep) (s : State) → Grows s (require_common db k p d s)
  unfolding require_common
  require_common-Grows k p d s =
      let x = s.names d.target in
      let first =
        set_name-Grows d.target (λ y. record y { merge_depends = 0 }) s (λ y. refl) (λ y. refl) in
      if-Grows s (x.merge_depends == k && x.requirers == 0) _ _
        (Grows-trans first (
          Grows-trans
            (set_name-Grows d.target (λ y. record y { requirers = short (y.requirers + 1) }) _
              (λ y. refl) (λ y. refl))
            (Grows-trans (name_requirers_changed-Grows db d.target _) (
              each-Grows (λ (q : Provide). inherit_pinning_and_flags db q.pkg (some p))
                (db.name d.target).providers _
                (λ q t. inherit_pinning_and_flags-Grows db q.pkg (some p) t)))))
        first

  require_only-Grows : (k p : ℕ) (d : Dep) (s : State) → Grows s (require_only db k p d s)
  unfolding require_only
  require_only-Grows k p d s =
      let first =
        set_name-Grows d.target (λ y. record y { merge_depends = 0 }) s (λ y. refl) (λ y. refl) in
      if-Grows s ((s.names d.target).merge_depends == k) _ _
        (Grows-trans first (apply_constraint-Grows db (some p) d _)) first

  exclude_common-Grows : (k n m : ℕ) (s : State) → Grows s (exclude_common db k n m s)
  unfolding exclude_common
  exclude_common-Grows k n m s =
      let first =
        set_name-Grows m (λ y. record y { merge_provides = 0 }) s (λ y. refl) (λ y. refl) in
      if-Grows s ((s.names m).merge_provides == k) _ _
        (Grows-trans first (exclude_non_providers-Grows m n (s.names m).has_virtual_provides _))
        first

  propagate-Grows : (n p k : ℕ) (s : State) → Grows s (propagate db n p k s)
  unfolding propagate
  propagate-Grows n p k s =
      let i = db.pkg p in
      let clear = λ (m : ℕ) (t : State).
        set_name-Grows m (λ y. record y { has_virtual_provides = false }) t (λ y. refl)
          (λ y. refl) in
      Grows-trans
        (each-Grows
          (λ (q : Provide).
            set_pkg q.pkg (λ x. record x { dependencies_used = x.dependencies_merged }))
          (db.name n).providers s
          (λ q t.
            set_pkg-Grows q.pkg (λ x. record x { dependencies_used = x.dependencies_merged }) t
              (λ x. refl)))
        (Grows-trans
          (if-Grows _ (k == 1) _ _
            (each-Grows (require_only db k p) i.depends _ (require_only-Grows k p))
            (each-Grows (require_common db k p) i.depends _ (require_common-Grows k p)))
          (Grows-trans (exclude_common-Grows k n i.name _) (
            Grows-trans
              (each-Grows (λ (d : Dep). exclude_common db k n d.target) i.provides _
                (λ d t. exclude_common-Grows k n d.target t))
              (Grows-trans (clear i.name _) (
                each-Grows
                  (λ (d : Dep). set_name d.target (λ y. record y { has_virtual_provides = false }))
                  i.provides _ (λ d t. clear d.target t))))))

  record_options-Grows : (n : ℕ) (g : Progress) → Grows g.state (record_options db n g)
  unfolding record_options
  record_options-Grows n g =
      set_name-Grows n
        (λ x. record x {
          has_options = ltb 1 g.num_options || not (g.num_tag_not_ok == 0);
          has_iif = g.is_iif;
          no_iif = g.is_no_iif;
          has_auto_selectable = g.auto_selectable;
        })
        g.state (λ x. refl) (λ x. refl)

  pub reconsider_name-Grows : (n : ℕ) (s : State) → Grows s (reconsider_name db n s)
  unfolding reconsider_name
  reconsider_name-Grows n s =
      let x = s.names n in
      let s0 = set_name n (λ y. record y { reevaluate_deps = false; reevaluate_iif = false }) s in
      let start : Progress = record {
        state = s0;
        first_candidate = none;
        num_options = 0;
        num_tag_not_ok = 0;
        is_iif = false;
        is_no_iif = true;
        auto_selectable = false;
      } in
      let g = consider_all db x.reevaluate_deps x.reevaluate_iif n (db.name n).providers start in
      let before = (g.state.names n).has_auto_selectable in
      let reevaluate = (g.auto_selectable && not before) || (not g.auto_selectable && before) in
      let s1 = record_options db n g in
      let s2 = elim (g.first_candidate) as (λ _. State) [
        | none ↦ s1
        | some p ↦ propagate db n p g.num_options s1
      ] in
      let done = all_reverse_done db s2 (db.name n).rdepends in
      let first =
        set_name-Grows n (λ y. record y { reevaluate_deps = false; reevaluate_iif = false }) s
          (λ y. refl) (λ y. refl) in
      let second : Grows s g.state =
        Grows-trans first
          (consider_all-Grows x.reevaluate_deps x.reevaluate_iif n (db.name n).providers start) in
      let third : Grows s s2 = Grows-trans (Grows-trans second (record_options-Grows n g)) (
        option-Grows s1 g.first_candidate s1 (λ p. propagate db n p g.num_options s1)
          (Grows-refl s1) (λ p. propagate-Grows n p g.num_options s1)) in
      Grows-trans third (
        Grows-trans
          (set_name-Grows n (λ y. record y { reverse_deps_done = done }) s2 (λ y. refl) (λ y. refl))
          (queue_unresolved-Grows n reevaluate _))
