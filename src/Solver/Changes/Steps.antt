-- ===== src/Solver/Changes/Steps.antt =====
-- Each task of the changeset keeps it sound.
use alpine_linux_mac_os.Base.{
  ℕ, ◌<◌, Bool, true, false, not, ◌&&◌, ◌||◌, Option, some, none, [], ◌∷◌, ◌++◌, List, map, ◌==◌,
  ◌≡◌, refl, sym, ◌∙◌, subst, arith, Bool-cases, Option-cases, inl, inr, All, append-nil,
  append_assoc,
}
use alpine_linux_mac_os.Solver.{
  Database, NameState, PackageState, State, Dep, Change, is_conflict, is_provided, set_name,
  set_pkg, mark_error,
}
use alpine_linux_mac_os.Solver.Changes.{
  Task, name_change, change_chosen, change_package, dependencies, change_recorded, preprocess,
  preprocess_provider, remove, removed, removal_by_deps, removal_by_iif, install_by_iif,
  track_removed, gen_dep, dep_done, record_change, track_added, start_dep, release,
  reverse_dependencies, by_reverse_iif, perform, orphan, chooses_itself,
}
use alpine_linux_mac_os.Solver.Changes.Kept.{
  Flagged, Kept, Kept-refl, Kept-trans, set_name-Kept, set_pkg-Kept, mark_error-Kept, each-Kept,
  track_added-Kept, record_change-Kept, release-Kept, start_dep-Kept, settled,
}
use alpine_linux_mac_os.Solver.Changes.Pushed.{
  All-append, All-map, All-every, reverse_dependencies-All, by_reverse_iif-All, orphan-All,
  start_dep-All, release-All, All-if, All-option,
}
use alpine_linux_mac_os.Solver.Changes.Sound.{AllSettled, TaskSound, NewSound, AllSettled-Kept}

-- What a task leaves: a change that it records is sound, and so are the tasks.
pub record Outcome (db : Database) (s : State) (r : State × List Task) : Type 0 where
  pub change : Option Change
  pub kept : Kept change s r.0
  pub sound : elim change as (λ _. Type 0) [ none ↦ Unit | some c ↦ NewSound db s c.new_pkg ]
  pub tasks : All (TaskSound db r.0) r.1

-- A task that records no change.
quiet :
    (db : Database) (s : State) (r : State × List Task)
    → Kept none s r.0
    → All (TaskSound db r.0) r.1
    → Outcome db s r
quiet db s r k h = record { change = none; kept = k; sound = tt; tasks = h }

positive : (n : ℕ) (b : Bool) → 0 < n → (not (n == 0) || b) ≡ true
positive n b h = ground arith

right_true : (a : Bool) → (a || true) ≡ true
right_true true = refl
right_true false = refl

last_true : (a b : Bool) → (a || (b || true)) ≡ true
last_true true b = refl
last_true false b = right_true b

module _ (db : Database) (s : State) (p : ℕ) (d : Dep) where
  settled_error : 0 < s.errors → settled db s p d ≡ true
  unfolding settled
  settled_error h =
      positive s.errors
        ((is_conflict d && s.ignore_conflict)
          || is_provided db (some p) d (s.names d.target).chosen)
        h

  settled_ignored : (is_conflict d && s.ignore_conflict) ≡ true → settled db s p d ≡ true
  unfolding settled
  settled_ignored h = rw h (right_true (not (s.errors == 0)))

  settled_provided :
      is_provided db (some p) d (s.names d.target).chosen ≡ true → settled db s p d ≡ true
  unfolding settled
  settled_provided h = rw h (last_true (not (s.errors == 0)) (is_conflict d && s.ignore_conflict))

-- A dependency that is neither provided nor ignored is an error.
start_dep-settled :
    (db : Database) (p : ℕ) (d : Dep) (s : State)
    → Flagged s
    → settled db (start_dep db (some p) d s).0 p d ≡ true
unfolding start_dep mark_error
start_dep-settled db p d s f = elim (Bool-cases (is_conflict d && s.ignore_conflict)) [
  | inl e ↦ rw (start_dep, e) (settled_ignored db s p d e)
  | inr e ↦ elim (Bool-cases (is_provided db (some p) d (s.names d.target).chosen)) [
    | inl k ↦ rw (start_dep, e, k) (settled_provided db s p d k)
    | inr k ↦ elim (Bool-cases (s.pkgs p).error) [
      | inl h ↦ rw (start_dep, mark_error, e, k, h) (settled_error db s p d (f p h))
      | inr h ↦ rw (start_dep, mark_error, e, k, h) (settled_error db _ p d (omega arith))
    ]
  ]
]

-- The record of a change whose new package is sound.
recording :
    (db : Database) (opkg npkg : Option ℕ) (s : State) (ts : List Task)
    → NewSound db s npkg
    → All (TaskSound db (record_change db opkg npkg s)) ts
    → Outcome db s (record_change db opkg npkg s, ts)
recording db opkg npkg s ts n h =
    let (c, e, k) = record_change-Kept db opkg npkg s in
    record { change = some c; kept = k; sound = subst (NewSound db s) (sym e) n; tasks = h }

-- The loop over the dependencies of a package.
next_dependency :
    (db : Database) (opkg : Option ℕ) (p : ℕ) (d : Dep) (ds : List Dep) (s : State)
    → Flagged s
    → TaskSound db s (dependencies opkg p (d ∷ ds))
    → Outcome db s (perform db (dependencies opkg p (d ∷ ds)) s)
unfolding perform
next_dependency db opkg p d ds s f (done, e, h) =
    let t : State = (start_dep db (some p) d s).0 in
    let k = start_dep-Kept db (some p) d s in
    let more : TaskSound db t (dependencies opkg p ds) = (
      done ++ d ∷ [],
      append_assoc done (d ∷ []) ds ∙ e,
      All-append (λ x. settled db t p x ≡ true) done (d ∷ []) (AllSettled-Kept db k p done h)
          (start_dep-settled db p d s f, tt),
    ) in
    quiet db s (perform db (dependencies opkg p (d ∷ ds)) s) k (
      All-append (TaskSound db t) (start_dep db (some p) d s).1 (dependencies opkg p ds ∷ [])
        (start_dep-All (TaskSound db t) db (some p) d s tt (λ c. tt)) (more, tt))

all_settled :
    (db : Database) (s : State) (opkg : Option ℕ) (p : ℕ)
    → TaskSound db s (dependencies opkg p [])
    → NewSound db s (some p)
all_settled db s opkg p (done, e, h) = subst (AllSettled db s p) (sym (append-nil done) ∙ e) h

-- Tasks that are sound wherever they stand, and the rest of a call behind them.
followed :
    (db : Database) (s : State) (ts : List Task) (t : Task)
    → All (TaskSound db s) ts
    → TaskSound db s t
    → All (TaskSound db s) (ts ++ t ∷ [])
followed db s ts t h k = All-append (TaskSound db s) ts (t ∷ []) h (k, tt)

iif-TaskSound :
    (db : Database) (s : State) (check : ℕ → Task) (o : Option ℕ)
    → ((n : ℕ) → TaskSound db s (check n))
    → All (TaskSound db s) (by_reverse_iif db check o)
iif-TaskSound db s check o h =
    by_reverse_iif-All (TaskSound db s) db check (λ n. All-every _ (db.name n).rinstall_if h) o

chosen_changed : (db : Database) (n : ℕ) (s : State) → Outcome db s (perform db (change_chosen n) s)
unfolding perform
chosen_changed db n s = elim (Option-cases (s.names n).chosen.pkg) [
  | inl e ↦ rw (perform, e) (quiet db s (s, []) (Kept-refl s) tt)
  | inr (p, e) ↦ elim (Bool-cases (s.pkgs p).in_changeset) [
    | inl k ↦ rw (perform, e, k) (quiet db s (s, []) (Kept-refl s) tt)
    | inr k ↦
        let g : PackageState → PackageState = λ x. record x { in_changeset = true } in
        rw (perform, e, k)
          (quiet db s _ (set_pkg-Kept p g s (λ x. refl) (λ x e. refl)) (
            tt,
            followed db (set_pkg p g s) (map (λ (d : Dep). preprocess d.target) (db.pkg p).provides)
                (change_package p)
                (All-map (TaskSound db (set_pkg p g s)) (λ (d : Dep). preprocess d.target)
                  (db.pkg p).provides (All-every _ (db.pkg p).provides (λ d. tt)))
                tt,
          ))
  ]
]

preprocessed : (db : Database) (n : ℕ) (s : State) → Outcome db s (perform db (preprocess n) s)
unfolding perform
preprocessed db n s = elim (Bool-cases (s.names n).changeset_processed) [
  | inl e ↦ rw (perform, e) (quiet db s (s, []) (Kept-refl s) tt)
  | inr e ↦
      let g : NameState → NameState = λ x. record x { changeset_processed = true } in
      rw (perform, e)
        (quiet db s _ (set_name-Kept n g s (λ x. refl) (λ x. refl) (λ x e. refl)) (
          All-append (TaskSound db (set_name n g s)) (orphan db (set_name n g s) n)
            (map preprocess_provider (db.name n).providers)
            (orphan-All (TaskSound db (set_name n g s)) db (set_name n g s) n (λ p e. tt))
            (All-map (TaskSound db (set_name n g s)) preprocess_provider (db.name n).providers
              (All-every _ (db.name n).providers (λ d. tt)))))
]

package_removed : (db : Database) (p : ℕ) (s : State) → Outcome db s (perform db (remove p) s)
unfolding perform
package_removed db p s =
    elim (Bool-cases ((s.pkgs p).in_changeset || chooses_itself db s (db.pkg p).name)) [
      | inl e ↦ rw (perform, e) (quiet db s (s, []) (Kept-refl s) tt)
      | inr e ↦
          let g : NameState → NameState = λ x. record x { changeset_removed = true } in
          let f : PackageState → PackageState = λ x. record x { in_changeset = true } in
          let t : State = set_name (db.pkg p).name g s in
          let u : State = set_pkg p f t in
          rw (perform, e)
            (quiet db s _
              (Kept-trans (set_name-Kept (db.pkg p).name g s (λ x. refl) (λ x. refl) (λ x e. e))
                (set_pkg-Kept p f t (λ x. refl) (λ x e. refl)))
              (All-append (TaskSound db u) (reverse_dependencies db p) _
                (reverse_dependencies-All (TaskSound db u) db
                  (λ n. All-every _ (db.name n).providers (λ q. tt)) p)
                (followed db u (by_reverse_iif db removal_by_iif (some p)) (removed p)
                  (iif-TaskSound db u removal_by_iif (some p) (λ n. tt)) tt)))
    ]

pub dep_done-Kept :
    (db : Database) (o c : Option ℕ) (s : State) → Kept none s (perform db (dep_done o c) s).0
unfolding perform
dep_done-Kept db o none s = Kept-refl s
dep_done-Kept db o (some p) s = elim (Bool-cases (s.pkgs p).error) [
  | inl e ↦ rw (perform, e) (mark_error-Kept o s)
  | inr e ↦ rw (perform, e) (Kept-refl s)
]

pub perform-Outcome :
    (db : Database) (t : Task) (s : State)
    → Flagged s
    → TaskSound db s t
    → Outcome db s (perform db t s)
unfolding perform
perform-Outcome db (name_change n) s f h =
    quiet db s _ (Kept-refl s) (elim (Bool-cases (s.names n).changeset_processed) [
      | inl e ↦ rw e tt
      | inr e ↦ rw e (tt, (tt, tt))
    ])
perform-Outcome db (change_chosen n) s f h = chosen_changed db n s
perform-Outcome db (change_package p) s f h =
    let o = (s.names (db.pkg p).name).installed_pkg in
    quiet db s _ (Kept-refl s) (
      followed db s (by_reverse_iif db removal_by_iif o) (dependencies o p (db.pkg p).depends)
        (iif-TaskSound db s removal_by_iif o (λ n. tt)) ([], refl, tt))
perform-Outcome db (dependencies opkg p (d ∷ ds)) s f h = next_dependency db opkg p d ds s f h
perform-Outcome db (dependencies opkg p []) s f h =
    let t : State = record_change db opkg (some p) s in
    recording db opkg (some p) s
      (by_reverse_iif db install_by_iif (some p) ++ change_recorded opkg p ∷ [])
      (all_settled db s opkg p h)
      (followed db t (by_reverse_iif db install_by_iif (some p)) (change_recorded opkg p)
        (iif-TaskSound db t install_by_iif (some p) (λ n. tt)) tt)
perform-Outcome db (change_recorded opkg p) s f h =
    quiet db s _ (each-Kept track_added (db.pkg p).depends s track_added-Kept) (
      All-option (TaskSound db _) opkg (λ o. true) (λ o. track_removed (db.pkg o).depends)
        (λ o e. tt))
perform-Outcome db (preprocess n) s f h = preprocessed db n s
perform-Outcome db (preprocess_provider p) s f h =
    quiet db s _ (Kept-refl s) (All-if (TaskSound db s) _ (remove p.pkg) tt)
perform-Outcome db (remove p) s f h = package_removed db p s
perform-Outcome db (removed p) s f h =
    recording db (some p) none s (track_removed (db.pkg p).depends ∷ []) tt (tt, tt)
perform-Outcome db (removal_by_deps p) s f h =
    quiet db s _ (Kept-refl s) (All-if (TaskSound db s) _ (remove p) tt)
perform-Outcome db (removal_by_iif n) s f h =
    quiet db s _ (Kept-refl s)
      (All-option (TaskSound db s) (s.names n).installed_pkg _ removal_by_deps (λ p e. tt))
perform-Outcome db (install_by_iif n) s f h =
    quiet db s _ (Kept-refl s)
      (All-option (TaskSound db s) (s.names n).chosen.pkg _ (λ p. name_change n) (λ p e. tt))
perform-Outcome db (track_removed []) s f h = quiet db s (s, []) (Kept-refl s) tt
perform-Outcome db (track_removed (d ∷ ds)) s f h = quiet db s _ (release-Kept d s) (
    followed db (release d s).0 (release d s).1 (track_removed ds)
      (release-All (TaskSound db (release d s).0) d s (λ p e. tt)) tt)
perform-Outcome db (gen_dep o d) s f h =
    quiet db s _ (start_dep-Kept db o d s)
      (start_dep-All (TaskSound db (start_dep db o d s).0) db o d s tt (λ c. tt))
perform-Outcome db (dep_done o c) s f h = quiet db s _ (dep_done-Kept db o c s) tt
