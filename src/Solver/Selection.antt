-- ===== src/Solver/Selection.antt =====
-- `assign_name` and `select_package` of apk-tools/src/solver.c.
use alpine_linux_mac_os.Base.{
  ℕ, ◌+◌, Ordering, Bool, true, false, not, ◌&&◌, ◌||◌, Option, some, none, [], ◌∷◌, List, ◌==◌,
  if◌then◌else◌,
}
use alpine_linux_mac_os.Solver.{
  Database, State, Dep, Provide, Choice, provider_none, choice_of, is_null, set_name, each, without,
  mark_error,
}
use alpine_linux_mac_os.Solver.Queues.{
  disqualify_package, reevaluate_reverse_deps, reevaluate_reverse_installif,
  reevaluate_reverse_installif_pkg, unqueue,
}
use alpine_linux_mac_os.Solver.Constraints.{apply_constraint}
use alpine_linux_mac_os.Solver.Reconsider.{is_auto_selectable}
use alpine_linux_mac_os.Solver.Preference.{compare_providers}

abbrev pub same_package : ℕ → Option ℕ → Bool
same_package p none = false
same_package p (some q) = p == q

module _ (db : Database) where
  -- The branch of a name that is locked already.
  unfoldable pub assign_locked : ℕ → Choice → State → State
  unfolding mark_error
  assign_locked n p s =
      let c = (s.names n).chosen in
      if (is_null p.version && is_null c.version) || s.ignore_conflict
      then s
      else mark_error c.pkg (mark_error p.pkg s)

  -- The name is locked to its choice and leaves the queues.
  unfoldable pub lock_name : ℕ → Choice → State → State
  lock_name n p s =
      let s1 = unqueue n (set_name n (λ x. record x { locked = true; chosen = p }) s) in
      record s1 { dirty = without n s1.dirty }

  unfoldable pub constrain_unlocked : ℕ → Dep → State → State
  unfolding apply_constraint
  constrain_unlocked p d s =
      if (s.names d.target).locked then s else apply_constraint db (some p) d s

  -- The constraints of the install_if rules that chose the package.
  unfoldable pub apply_install_if : ℕ → Option ℕ → State → State
  unfolding constrain_unlocked
  apply_install_if n none s = s
  apply_install_if n (some p) s =
      if (s.names n).requirers == 0 && (s.pkgs p).iif_triggered
      then each (constrain_unlocked p) (db.pkg p).install_if s
      else s

  unfoldable pub exclude_other : Choice → Provide → State → State
  unfolding disqualify_package
  exclude_other p q s =
      if same_package q.pkg p.pkg || (is_null p.version && is_null q.version)
      then s
      else disqualify_package db q.pkg s

  unfoldable pub revisit_chosen : ℕ → Option ℕ → State → State
  unfolding reevaluate_reverse_installif reevaluate_reverse_installif_pkg
  revisit_chosen n none s = reevaluate_reverse_installif db n s
  revisit_chosen n (some p) s = reevaluate_reverse_installif_pkg db p s

  -- The branch of a name that is not locked.
  unfoldable pub assign_unlocked : ℕ → Choice → State → State
  unfolding lock_name apply_install_if exclude_other reevaluate_reverse_deps revisit_chosen
  assign_unlocked n p s =
      let s1 = apply_install_if n p.pkg (lock_name n p s) in
      let s2 = if s1.ignore_conflict then s1 else each (exclude_other p) (db.name n).providers s1 in
      revisit_chosen n p.pkg (reevaluate_reverse_deps db n s2)

  unfoldable pub assign_name : ℕ → Choice → State → State
  unfolding assign_locked assign_unlocked
  assign_name n p s = if (s.names n).locked then assign_locked n p s else assign_unlocked n p s

  -- The tests by which the loop of `select_package` leaves a provider out.
  unfoldable pub is_candidate : State → ℕ → Provide → Bool
  unfolding is_auto_selectable
  is_candidate s n p =
      let x = s.pkgs p.pkg in
      not (
        (s.names n).requirers == 0
        && (not x.iif_triggered || (not x.tag_ok || not x.pkg_selectable)))
      && is_auto_selectable db s p

  abbrev is_greater : Ordering → Bool
  is_greater Ordering.gt = true
  is_greater _ = false

  -- The loop over the providers, with the choice so far.
  unfoldable pub choose : State → ℕ → List Provide → Choice → Choice
  unfolding is_candidate compare_providers
  choose s n [] chosen = chosen
  choose s n (p ∷ ps) chosen = choose s n ps (
      if is_candidate s n p && is_greater (compare_providers db s (choice_of p) chosen)
      then choice_of p
      else chosen)

  -- The package that was chosen for a name.
  unfoldable pub select_chosen : ℕ → State → State
  unfolding assign_name apply_constraint mark_error
  select_chosen p s =
      let i = db.pkg p in
      let x = s.pkgs p in
      let s1 = if not x.pkg_selectable || not x.tag_ok then mark_error (some p) s else s in
      let s2 = assign_name i.name (record { pkg = some p; version = i.matched.version }) s1 in
      let s3 =
        each (λ (d : Dep). assign_name d.target (record { pkg = some p; version = d.spec.version }))
          i.provides s2 in
      each (apply_constraint db (some p)) i.depends s3

  -- A name that gets no package.
  unfoldable pub select_none : ℕ → State → State
  unfolding assign_name
  select_none n s =
      let s1 = assign_name n provider_none s in
      if (s1.names n).requirers == 0 then s1 else record s1 { errors = s1.errors + 1 }

  unfoldable pub select_package : ℕ → State → State
  unfolding choose select_chosen select_none
  select_package n s =
      let ss = s.names n in
      let chosen =
        if not (ss.requirers == 0) || ss.has_iif
        then choose s n (db.name n).providers provider_none
        else provider_none in
      elim (chosen.pkg) as (λ _. State) [ none ↦ select_none n s | some p ↦ select_chosen p s ]
