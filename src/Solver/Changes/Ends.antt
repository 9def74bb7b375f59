-- ===== src/Solver/Changes/Ends.antt =====
-- Each task of `generate_changeset` of apk-tools/src/solver.c ends: it marks a name or a package that
-- was not marked, or leaves tasks that end.
use alpine_linux_mac_os.Base.{
  ℕ, ◌<◌, Bool, true, false, ◌||◌, Option, some, none, [], ◌∷◌, List, map, ◌==◌, ◌≡◌, refl, ap,
  arith, Bool-cases, Option-cases, inl, inr, All,
}
use alpine_linux_mac_os.Solver.{
  Database, NameState, PackageState, State, Dep, Provide, Change, set_name, modify,
}
use alpine_linux_mac_os.Solver.Changes.{
  Task, name_change, change_chosen, change_package, dependencies, change_recorded, preprocess,
  preprocess_provider, remove, removed, removal_by_deps, removal_by_iif, install_by_iif,
  track_removed, gen_dep, dep_done, track_added, start_dep, release, reverse_dependencies,
  by_reverse_iif, perform, orphan, chooses_itself,
}
use alpine_linux_mac_os.Solver.Changes.Kept.{
  Kept, Kept-refl, Kept-trans, set_name-Kept, set_pkg-Kept, each-Kept, track_added-Kept,
  record_change-Kept, release-Kept, start_dep-Kept,
}
use alpine_linux_mac_os.Solver.Changes.Pushed.{
  All-append, All-map, All-every, All-imp, reverse_dependencies-All, by_reverse_iif-All, orphan-All,
  All-if, All-option, start_dep-All, release-All,
}
use alpine_linux_mac_os.Solver.Changes.Steps.{dep_done-Kept}
use alpine_linux_mac_os.Solver.Changes.Measure.{
  Closed, remaining, Kept-Below, processed_less, in_changeset_less,
}
use alpine_linux_mac_os.Solver.Changes.Goes.{
  Within, Goes, Moves, TaskBelow, Goes-all, step-Goes, stays, quiet-Goes,
}

left_false : (a b : Bool) → (a || b) ≡ false → a ≡ false
left_false true b e = cc
left_false false b e = refl

modify_same : {A : Type 0} (f : ℕ → A) (i : ℕ) (g : A → A) → modify f i g i ≡ g (f i)
modify_same f i g = let e : (i == i) ≡ true = ground arith in rw e refl

-- The tasks at a bound, where all tasks end at the bounds below it.
module _ (db : Database) (ds0 : List Dep) (n : ℕ) (c : Closed db ds0 n) (k : ℕ)
    (ih : (j : ℕ) → j < k → (x : Task) → TaskBelow n x → Goes db n j (x ∷ [])) where
  -- A task that has set a mark.
  marks :
      {o : Option Change} (s : State) (r : State × List Task)
      → Kept o s r.0
      → Within n k s
      → remaining n r.0 < remaining n s
      → All (TaskBelow n) r.1
      → Moves db n k r
  marks s r h (b, l) m g = record {
    bound = remaining n r.0;
    bound_le = omega arith;
    within = (Kept-Below h b, omega arith);
    goes =
        Goes-all db n (remaining n r.0) r.1
          (All-imp (TaskBelow n) _ r.1 (ih (remaining n r.0) (omega arith)) g);
  }

  abbrev pub Ends : Task → Type 0
  Ends x = Goes db n k (x ∷ [])

  dep_done-Ends : (o p : Option ℕ) → Ends (dep_done o p)
  unfolding perform
  dep_done-Ends o p =
      quiet-Goes db n k (dep_done o p) (λ s. (none, dep_done-Kept db o p s))
        (λ s b. Goes-all db n k [] tt)

  remove-Ends : (p : ℕ) → p < n → Ends (remove p)
  unfolding perform
  remove-Ends p l = step-Goes db n k (remove p) (λ s w.
      elim (Bool-cases ((s.pkgs p).in_changeset || chooses_itself db s (db.pkg p).name)) [
        | inl e ↦ rw (perform, e) (stays db n k s (s, []) (Kept-refl s) w (Goes-all db n k [] tt))
        | inr e ↦
            let g : NameState → NameState = λ x. record x { changeset_removed = true } in
            let f : PackageState → PackageState = λ x. record x { in_changeset = true } in
            let t : State = set_name (db.pkg p).name g s in
            let h =
              Kept-trans (set_name-Kept (db.pkg p).name g s (λ x. refl) (λ x. refl) (λ x e. e))
                (set_pkg-Kept p f t (λ x. refl) (λ x e. refl)) in
            rw (perform, e)
              (marks s _ h w
                (in_changeset_less n p h l
                  (left_false (s.pkgs p).in_changeset (chooses_itself db s (db.pkg p).name) e)
                  (ap (λ (q : PackageState). q.in_changeset) (modify_same t.pkgs p f)))
                (All-append (TaskBelow n) (reverse_dependencies db p) _
                  (reverse_dependencies-All (TaskBelow n) db c.providers p)
                  (All-append (TaskBelow n) (by_reverse_iif db removal_by_iif (some p))
                    (removed p ∷ [])
                    (by_reverse_iif-All (TaskBelow n) db removal_by_iif
                      (λ m. All-every _ (db.name m).rinstall_if (λ _. tt)) (some p))
                    (tt, tt))))
      ])

  removal_by_deps-Ends : (p : ℕ) → p < n → Ends (removal_by_deps p)
  unfolding perform
  removal_by_deps-Ends p l =
      quiet-Goes db n k (removal_by_deps p) (λ s. (none, Kept-refl s))
        (λ s b. Goes-all db n k _ (All-if Ends _ (remove p) (remove-Ends p l)))

  removal_by_iif-Ends : (m : ℕ) → Ends (removal_by_iif m)
  unfolding perform
  removal_by_iif-Ends m =
      quiet-Goes db n k (removal_by_iif m) (λ s. (none, Kept-refl s))
        (λ s b. Goes-all db n k _ (
          All-option Ends (s.names m).installed_pkg _ removal_by_deps
            (λ p e. removal_by_deps-Ends p (b.installed m p e))))

  track_removed-Ends : (ds : List Dep) → Ends (track_removed ds)
  unfolding perform
  track_removed-Ends [] =
      quiet-Goes db n k (track_removed []) (λ s. (none, Kept-refl s)) (λ s b. Goes-all db n k [] tt)
  track_removed-Ends (d ∷ ds) =
      quiet-Goes db n k (track_removed (d ∷ ds)) (λ s. (none, release-Kept d s))
        (λ s b. Goes-all db n k _ (
          All-append Ends (release d s).1 (track_removed ds ∷ [])
            (release-All Ends d s (λ p e. remove-Ends p (b.installed d.target p e)))
            (track_removed-Ends ds, tt)))

  removed-Ends : (p : ℕ) → Ends (removed p)
  unfolding perform
  removed-Ends p =
      quiet-Goes db n k (removed p)
        (λ s. let (x, e, h) = record_change-Kept db (some p) none s in (some x, h))
        (λ s b.
          Goes-all db n k (track_removed (db.pkg p).depends ∷ [])
            (track_removed-Ends (db.pkg p).depends, tt))

  preprocess_provider-Ends : (q : Provide) → q.pkg < n → Ends (preprocess_provider q)
  unfolding perform
  preprocess_provider-Ends q l =
      quiet-Goes db n k (preprocess_provider q) (λ s. (none, Kept-refl s))
        (λ s b. Goes-all db n k _ (All-if Ends _ (remove q.pkg) (remove-Ends q.pkg l)))

  preprocess-Ends : (m : ℕ) → m < n → Ends (preprocess m)
  unfolding perform
  preprocess-Ends m l = step-Goes db n k (preprocess m) (λ s w.
      elim (Bool-cases (s.names m).changeset_processed) [
        | inl e ↦ rw (perform, e) (stays db n k s (s, []) (Kept-refl s) w (Goes-all db n k [] tt))
        | inr e ↦
            let g : NameState → NameState = λ x. record x { changeset_processed = true } in
            let h = set_name-Kept m g s (λ x. refl) (λ x. refl) (λ x e. refl) in
            let b = Kept-Below h w.0 in
            rw (perform, e)
              (marks s _ h w
                (processed_less n m h l e
                  (ap (λ (x : NameState). x.changeset_processed) (modify_same s.names m g)))
                (All-append (TaskBelow n) (orphan db (set_name m g s) m)
                  (map preprocess_provider (db.name m).providers)
                  (orphan-All (TaskBelow n) db (set_name m g s) m (b.installed m))
                  (All-map (TaskBelow n) preprocess_provider (db.name m).providers
                    (c.providers m))))
      ])

  change_chosen-Ends : (m : ℕ) → Ends (change_chosen m)
  unfolding perform
  change_chosen-Ends m = step-Goes db n k (change_chosen m) (λ s w.
      elim (Option-cases (s.names m).chosen.pkg) [
        | inl e ↦ rw (perform, e) (stays db n k s (s, []) (Kept-refl s) w (Goes-all db n k [] tt))
        | inr (p, e) ↦ elim (Bool-cases (s.pkgs p).in_changeset) [
          | inl j ↦
              rw (perform, e, j) (stays db n k s (s, []) (Kept-refl s) w (Goes-all db n k [] tt))
          | inr j ↦
              let g : PackageState → PackageState = λ x. record x { in_changeset = true } in
              let h = set_pkg-Kept p g s (λ x. refl) (λ x e. refl) in
              rw (perform, e, j)
                (marks s _ h w
                  (in_changeset_less n p h (w.0.chosen m p e) j
                    (ap (λ (x : PackageState). x.in_changeset) (modify_same s.pkgs p g)))
                  (
                    c.name p,
                    All-append (TaskBelow n)
                        (map (λ (d : Dep). preprocess d.target) (db.pkg p).provides)
                        (change_package p ∷ [])
                        (All-map (TaskBelow n) (λ (d : Dep). preprocess d.target)
                          (db.pkg p).provides (c.provides p))
                        (tt, tt),
                  ))
        ]
      ])

  name_change-Ends : (m : ℕ) → m < n → Ends (name_change m)
  unfolding perform
  name_change-Ends m l =
      quiet-Goes db n k (name_change m) (λ s. (none, Kept-refl s))
        (λ s b. Goes-all db n k _ (elim (Bool-cases (s.names m).changeset_processed) [
          | inl e ↦ rw e tt
          | inr e ↦ rw e (preprocess-Ends m l, (change_chosen-Ends m, tt))
        ]))

  gen_dep-Ends : (o : Option ℕ) (d : Dep) → d.target < n → Ends (gen_dep o d)
  unfolding perform
  gen_dep-Ends o d l =
      quiet-Goes db n k (gen_dep o d) (λ s. (none, start_dep-Kept db o d s))
        (λ s b.
          Goes-all db n k _
            (start_dep-All Ends db o d s (name_change-Ends d.target l) (dep_done-Ends o)))

  install_by_iif-Ends : (m : ℕ) → m < n → Ends (install_by_iif m)
  unfolding perform
  install_by_iif-Ends m l =
      quiet-Goes db n k (install_by_iif m) (λ s. (none, Kept-refl s))
        (λ s b. Goes-all db n k _ (
          All-option Ends (s.names m).chosen.pkg _ (λ p. name_change m)
            (λ p e. name_change-Ends m l)))

  change_recorded-Ends : (o : Option ℕ) (p : ℕ) → Ends (change_recorded o p)
  unfolding perform
  change_recorded-Ends o p =
      quiet-Goes db n k (change_recorded o p)
        (λ s. (none, each-Kept track_added (db.pkg p).depends s track_added-Kept))
        (λ s b. Goes-all db n k _ (
          All-option Ends o (λ _. true) (λ q. track_removed (db.pkg q).depends)
            (λ q e. track_removed-Ends (db.pkg q).depends)))

  dependencies-Ends :
      (o : Option ℕ) (p : ℕ) (ds : List Dep)
      → All (λ (d : Dep). d.target < n) ds
      → Ends (dependencies o p ds)
  unfolding perform
  dependencies-Ends o p [] l =
      quiet-Goes db n k (dependencies o p [])
        (λ s. let (x, e, h) = record_change-Kept db o (some p) s in (some x, h))
        (λ s b. Goes-all db n k _ (
          All-append Ends (by_reverse_iif db install_by_iif (some p)) (change_recorded o p ∷ [])
            (by_reverse_iif-All Ends db install_by_iif
              (λ m. All-imp _ _ (db.name m).rinstall_if install_by_iif-Ends (c.rinstall_if m))
              (some p))
            (change_recorded-Ends o p, tt)))
  dependencies-Ends o p (d ∷ ds) (l, ls) =
      quiet-Goes db n k (dependencies o p (d ∷ ds)) (λ s. (none, start_dep-Kept db (some p) d s))
        (λ s b. Goes-all db n k _ (
          All-append Ends (start_dep db (some p) d s).1 (dependencies o p ds ∷ [])
            (start_dep-All Ends db (some p) d s (name_change-Ends d.target l)
              (dep_done-Ends (some p)))
            (dependencies-Ends o p ds ls, tt)))

  change_package-Ends : (p : ℕ) → Ends (change_package p)
  unfolding perform
  change_package-Ends p =
      quiet-Goes db n k (change_package p) (λ s. (none, Kept-refl s))
        (λ s b.
          let o = (s.names (db.pkg p).name).installed_pkg in
          Goes-all db n k _ (
            All-append Ends (by_reverse_iif db removal_by_iif o)
              (dependencies o p (db.pkg p).depends ∷ [])
              (by_reverse_iif-All Ends db removal_by_iif
                (λ m. All-every _ (db.name m).rinstall_if removal_by_iif-Ends) o)
              (dependencies-Ends o p (db.pkg p).depends (c.depends p), tt)))

  pub task-Ends : (x : Task) → TaskBelow n x → Ends x
  task-Ends (name_change m) l = name_change-Ends m l
  task-Ends (change_chosen m) l = change_chosen-Ends m
  task-Ends (change_package p) l = change_package-Ends p
  task-Ends (dependencies o p ds) l = dependencies-Ends o p ds l
  task-Ends (change_recorded o p) l = change_recorded-Ends o p
  task-Ends (preprocess m) l = preprocess-Ends m l
  task-Ends (preprocess_provider q) l = preprocess_provider-Ends q l
  task-Ends (remove p) l = remove-Ends p l
  task-Ends (removed p) l = removed-Ends p
  task-Ends (removal_by_deps p) l = removal_by_deps-Ends p l
  task-Ends (removal_by_iif m) l = removal_by_iif-Ends m
  task-Ends (install_by_iif m) l = install_by_iif-Ends m l
  task-Ends (track_removed ds) l = track_removed-Ends ds
  task-Ends (gen_dep o d) l = gen_dep-Ends o d l
  task-Ends (dep_done o p) l = dep_done-Ends o p
