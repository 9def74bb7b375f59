-- ===== src/Solver/Grows/Select.antt =====
-- `assign_name`, `select_package` and the main loop of apk-tools/src/solver.c take nothing back.
use alpine_linux_mac_os.Base.{
  ℕ, ◌+◌, true, false, not, ◌&&◌, ◌||◌, Option, some, none, ◌==◌, if◌then◌else◌, ◌≡◌, refl, sym, ap,
  ◌∙◌, arith, Bool-cases, inl, inr,
}
use alpine_linux_mac_os.Solver.{Database, State, Dep, Provide, Choice, is_null, provider_none}
use alpine_linux_mac_os.Solver.Constraints.{apply_constraint}
use alpine_linux_mac_os.Solver.Selection.{
  same_package, assign_locked, lock_name, constrain_unlocked, apply_install_if, exclude_other,
  revisit_chosen, assign_unlocked, assign_name, choose, select_chosen, select_none, select_package,
}
use alpine_linux_mac_os.Solver.Grows.{
  Grows, Grows-refl, Grows-trans, if-Grows, option-Grows, each-Grows, mark_error-Grows,
}
use alpine_linux_mac_os.Solver.Grows.Queues.{
  reevaluate_reverse_deps-Grows, reevaluate_reverse_installif-Grows,
  reevaluate_reverse_installif_pkg-Grows, disqualify_package-Grows, apply_constraint-Grows,
}

module _ (db : Database) where
  assign_locked-Grows : (n : ℕ) (p : Choice) (s : State) → Grows s (assign_locked db n p s)
  unfolding assign_locked
  assign_locked-Grows n p s =
      if-Grows s ((is_null p.version && is_null (s.names n).chosen.version) || s.ignore_conflict) _
        _ (Grows-refl s)
        (Grows-trans (mark_error-Grows p.pkg s) (mark_error-Grows (s.names n).chosen.pkg _))

  -- The lock of a name that is not locked.
  lock_name-Grows :
      (n : ℕ) (p : Choice) (s : State) → (s.names n).locked ≡ false → Grows s (lock_name db n p s)
  unfolding lock_name
  lock_name-Grows n p s u = record {
    errors = omega arith;
    locked = λ m l. elim (Bool-cases (n == m)) [ inl e ↦ rw e refl | inr e ↦ rw e l ];
    chosen = λ m l. elim (Bool-cases (n == m)) [
      | inl e ↦
          let k : n ≡ m = ground arith in
          let no : false ≡ true = sym u ∙ (ap (λ i. (s.names i).locked) k ∙ l) in cc
      | inr e ↦ rw e refl
    ];
    flagged = λ f. f;
  }

  apply_install_if-Grows : (n : ℕ) (o : Option ℕ) (s : State) → Grows s (apply_install_if db n o s)
  unfolding apply_install_if constrain_unlocked
  apply_install_if-Grows n none s = Grows-refl s
  apply_install_if-Grows n (some p) s =
      if-Grows s ((s.names n).requirers == 0 && (s.pkgs p).iif_triggered) _ _
        (each-Grows (constrain_unlocked db p) (db.pkg p).install_if s (λ d t.
          if-Grows t (t.names d.target).locked _ _ (Grows-refl t)
            (apply_constraint-Grows db (some p) d t)))
        (Grows-refl s)

  exclude_other-Grows : (p : Choice) (q : Provide) (s : State) → Grows s (exclude_other db p q s)
  unfolding exclude_other
  exclude_other-Grows p q s =
      if-Grows s (same_package q.pkg p.pkg || (is_null p.version && is_null q.version)) _ _
        (Grows-refl s) (disqualify_package-Grows db q.pkg s)

  revisit_chosen-Grows : (n : ℕ) (o : Option ℕ) (s : State) → Grows s (revisit_chosen db n o s)
  unfolding revisit_chosen
  revisit_chosen-Grows n none s = reevaluate_reverse_installif-Grows db n s
  revisit_chosen-Grows n (some p) s = reevaluate_reverse_installif_pkg-Grows db p s

  assign_unlocked-Grows :
      (n : ℕ) (p : Choice) (s : State)
      → (s.names n).locked ≡ false
      → Grows s (assign_unlocked db n p s)
  unfolding assign_unlocked
  assign_unlocked-Grows n p s u =
      let s1 = apply_install_if db n p.pkg (lock_name db n p s) in
      Grows-trans (lock_name-Grows n p s u) (
        Grows-trans (apply_install_if-Grows n p.pkg _) (
          Grows-trans
            (if-Grows s1 s1.ignore_conflict _ _ (Grows-refl s1)
              (each-Grows (exclude_other db p) (db.name n).providers s1 (exclude_other-Grows p)))
            (Grows-trans (reevaluate_reverse_deps-Grows db n _) (revisit_chosen-Grows n p.pkg _))))

  pub assign_name-Grows : (n : ℕ) (p : Choice) (s : State) → Grows s (assign_name db n p s)
  unfolding assign_name
  assign_name-Grows n p s = elim (Bool-cases (s.names n).locked) [
    | inl e ↦ rw (assign_name, e) (assign_locked-Grows n p s)
    | inr e ↦ rw (assign_name, e) (assign_unlocked-Grows n p s e)
  ]

  select_chosen-Grows : (p : ℕ) (s : State) → Grows s (select_chosen db p s)
  unfolding select_chosen
  select_chosen-Grows p s =
      let i = db.pkg p in
      let x = s.pkgs p in
      Grows-trans
        (if-Grows s (not x.pkg_selectable || not x.tag_ok) _ _ (mark_error-Grows (some p) s)
          (Grows-refl s))
        (Grows-trans
          (assign_name-Grows i.name (record { pkg = some p; version = i.matched.version }) _)
          (Grows-trans
            (each-Grows
              (λ (d : Dep).
                assign_name db d.target (record { pkg = some p; version = d.spec.version }))
              i.provides _
              (λ d t.
                assign_name-Grows d.target (record { pkg = some p; version = d.spec.version }) t))
            (each-Grows (apply_constraint db (some p)) i.depends _
              (apply_constraint-Grows db (some p)))))

  more_errors-Grows : (s : State) → Grows s (record s { errors = s.errors + 1 })
  more_errors-Grows s = record {
    errors = omega arith;
    locked = λ n e. e;
    chosen = λ n e. refl;
    flagged = λ f p e. omega arith;
  }

  select_none-Grows : (n : ℕ) (s : State) → Grows s (select_none db n s)
  unfolding select_none
  select_none-Grows n s =
      let s1 = assign_name db n provider_none s in
      let first = assign_name-Grows n provider_none s in
      if-Grows s ((s1.names n).requirers == 0) _ _ first (Grows-trans first (more_errors-Grows s1))

  pub select_package-Grows : (n : ℕ) (s : State) → Grows s (select_package db n s)
  unfolding select_package
  select_package-Grows n s =
      let ss = s.names n in
      let chosen =
        if not (ss.requirers == 0) || ss.has_iif
        then choose db s n (db.name n).providers provider_none
        else provider_none in
      option-Grows s chosen.pkg _ (λ p. select_chosen db p s) (select_none-Grows n s)
        (λ p. select_chosen-Grows p s)
