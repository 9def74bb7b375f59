-- ===== src/Solver/Changes/Total.antt =====
-- `generate_changeset` of apk-tools/src/solver.c ends where the database is finite.
use alpine_linux_mac_os.Base.{
  ℕ, zero, suc, ◌<◌, some, none, [], ◌∷◌, List, map, ◌==◌, ◌≡◌, refl, subst, arith, Bool-cases, inl,
  inr, All, append-nil,
}
use mathlib.Core.Option.{some-injective}
use alpine_linux_mac_os.Solver.{Database, State, Dep, each, is_null}
use alpine_linux_mac_os.Solver.Changes.{
  Task, name_change, removal_by_deps, gen_dep, track_added, run, change_tasks, begin_changes,
  note_installed, generate_changeset,
}
use alpine_linux_mac_os.Solver.Changes.Kept.{set_name-Kept, track_added-Kept}
use alpine_linux_mac_os.Solver.Changes.Pushed.{All-append, All-map, All-every, All-imp}
use alpine_linux_mac_os.Solver.Changes.Reach.{each_keeps}
use alpine_linux_mac_os.Solver.Changes.Measure.{Closed, Below, remaining, Kept-Below}
use alpine_linux_mac_os.Solver.Changes.Goes.{Goes, TaskBelow, Goes-all}
use alpine_linux_mac_os.Solver.Changes.Ends.{task-Ends}

-- Every task ends, by induction on what is left to do.
below-Ends :
    (db : Database) (ds : List Dep) (n : ℕ) (c : Closed db ds n) (k j : ℕ)
    → j < k
    → (x : Task) → TaskBelow n x
    → Goes db n j (x ∷ [])
below-Ends db ds n c zero j l x b = absurd (omega arith)
below-Ends db ds n c (suc k) j l x b =
    task-Ends db ds n c j (λ i m. below-Ends db ds n c k i (omega arith)) x b

note_installed-Below :
    (db : Database) (n p : ℕ) (s : State) → p < n → Below n s → Below n (note_installed db p s)
unfolding note_installed
note_installed-Below db n p s l b =
    let m = (db.pkg p).name in
    each_keeps (Below n) (λ _. Unit {0}) _ (db.pkg p).provides _
      (λ (d : Dep) t q k. elim (Bool-cases (is_null d.spec.version)) [
        | inl e ↦ rw e k
        | inr e ↦ rw e (
            Kept-Below
              (set_name-Kept d.target (λ x. record x { installed_name = some m }) t (λ x. refl)
                (λ x. refl) (λ x e. e))
              k)
      ])
      (All-every _ (db.pkg p).provides (λ _. tt))
      (record {
        chosen = λ i q. elim (Bool-cases (m == i)) [
          | inl e ↦ rw e (b.chosen i q)
          | inr e ↦ rw e (b.chosen i q)
        ];
        installed = λ i q. elim (Bool-cases (m == i)) [
          | inl e ↦ rw e (λ h. subst (λ x. x < n) (some-injective p q h) l)
          | inr e ↦ rw e (b.installed i q)
        ];
      })

begin_changes-Below :
    (db : Database) (n : ℕ) (s : State)
    → All (λ p. p < n) db.installed
    → ((m p : ℕ) → (s.names m).chosen.pkg ≡ some p → p < n)
    → Below n (begin_changes db s)
unfolding begin_changes
begin_changes-Below db n s l h =
    each_keeps (Below n) (λ _. Unit {0}) (λ (p : ℕ). each track_added (db.pkg p).depends)
      db.installed _
      (λ p t q.
        each_keeps (Below n) (λ _. Unit {0}) track_added (db.pkg p).depends t
          (λ d u r. Kept-Below (track_added-Kept d u)) (All-every _ (db.pkg p).depends (λ _. tt)))
      (All-every _ db.installed (λ _. tt))
      (each_keeps (Below n) (λ p. p < n) (note_installed db) db.installed _
        (λ p t q. note_installed-Below db n p t q) l
        (record { chosen = h; installed = λ m p e. absurd cc }))

change_tasks-TaskBelow :
    (db : Database) (ds : List Dep) (n : ℕ)
    → Closed db ds n
    → All (TaskBelow n) (change_tasks db ds)
unfolding change_tasks
change_tasks-TaskBelow db ds n c =
    All-append (TaskBelow n) (map removal_by_deps db.installed) _
      (All-map (TaskBelow n) removal_by_deps db.installed c.installed)
      (All-append (TaskBelow n) (map (λ (d : Dep). gen_dep none d) ds) _
        (All-map (TaskBelow n) (λ (d : Dep). gen_dep none d) ds c.targets)
        (All-map (TaskBelow n) (λ (p : ℕ). name_change (db.pkg p).name) db.installed
          (All-every _ db.installed c.name)))

-- For a database whose links lead below `n`, and a state whose names choose packages below `n`, the
-- changeset is generated with enough rounds: `generate_changeset` ends.
pub generate_changeset-Halts :
    (db : Database) (ds : List Dep) (n : ℕ) (s : State)
    → Closed db ds n
    → ((m p : ℕ) → (s.names m).chosen.pkg ≡ some p → p < n)
    → (fuel : ℕ) × (t : State) × (generate_changeset fuel db ds s ≡ some t)
unfolding generate_changeset
generate_changeset-Halts db ds n s c h =
    let u = begin_changes db s in
    let r = remaining n u in
    let tasks = change_tasks db ds in
    let goes = Goes-all db n r tasks (
      All-imp (TaskBelow n) _ tasks (below-Ends db ds n c (suc r) r (omega arith))
        (change_tasks-TaskBelow db ds n c)) in
    let (fuel, t, e) =
      goes [] (λ s w. (1, s, refl)) u (begin_changes-Below db n s c.installed h, omega arith) in
    (fuel, t, subst (λ ts. run fuel db ts u ≡ some t) (append-nil tasks) e)
