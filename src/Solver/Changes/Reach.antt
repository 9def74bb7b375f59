-- ===== src/Solver/Changes/Reach.antt =====
-- The states that `generate_changeset` of apk-tools/src/solver.c passes through, and what holds of
-- the changes in each of them.
use alpine_linux_mac_os.Base.{
  ℕ, zero, suc, Bool, true, not, ◌&&◌, ◌||◌, Option, some, none, [], ◌∷◌, ◌++◌, List, map, ◌==◌,
  ◌≡◌, refl, sym, ◌∙◌, subst, arith, Bool-cases, inl, inr, All,
}
use mathlib.Core.Option.{some-injective}
use alpine_linux_mac_os.Solver.{
  Database, State, Dep, Change, is_conflict, is_null, is_provided, each,
}
use alpine_linux_mac_os.Solver.Changes.{
  Task, name_change, removal_by_deps, gen_dep, track_added, note_installed, perform, run,
  change_tasks, begin_changes, generate_changeset,
}
use alpine_linux_mac_os.Solver.Changes.Kept.{Flagged, Kept, track_added-Kept, settled}
use alpine_linux_mac_os.Solver.Changes.Pushed.{All-append, All-imp, All-map, All-every}
use alpine_linux_mac_os.Solver.Changes.Sound.{
  TaskSound, NewSound, Inv, NewSound-Kept, TaskSound-Kept,
}
use alpine_linux_mac_os.Solver.Changes.Steps.{perform-Outcome}

-- The tasks that are left and the state, in the course of `generate_changeset`.
pub data Reach (db : Database) (world : List Dep) (s : State) : List Task → State → Type 0 where
  begun : Reach db world s (change_tasks db world) (begin_changes db s)
  performed :
      {t : Task} {ts : List Task} {u : State}
      → Reach db world s (t ∷ ts) u
      → Reach db world s ((perform db t u).1 ++ ts) (perform db t u).0

pub run-Reach :
    (fuel : ℕ) (db : Database) (world : List Dep) (s u t : State) (ts : List Task)
    → Reach db world s ts u
    → run fuel db ts u ≡ some t
    → Reach db world s [] t
unfolding run
run-Reach zero db world s u t ts r e = absurd cc
run-Reach (suc fuel) db world s u t [] r e = subst (Reach db world s []) (some-injective u t e) r
run-Reach (suc fuel) db world s u t (x ∷ ts) r e = run-Reach fuel db world s _ t _ (performed r) e

-- What a loop keeps.
pub each_keeps :
    {A : Type 0} (P : State → Type 0) (Q : A → Type 0) (f : A → State → State) (xs : List A)
    (s : State)
    → ((x : A) (t : State) → Q x → P t → P (f x t))
    → All Q xs
    → P s
    → P (each f xs s)
each_keeps P Q f [] s h q k = k
each_keeps P Q f (x ∷ xs) s h (q, qs) k = each_keeps P Q f xs (f x s) h qs (h x s q k)

Fresh : State → Type 0
Fresh s = Flagged s × (s.changes ≡ [])

note_installed-Fresh : (db : Database) (p : ℕ) (s : State) → Fresh s → Fresh (note_installed db p s)
unfolding note_installed Fresh
note_installed-Fresh db p s h =
    let n = (db.pkg p).name in
    each_keeps Fresh (λ _. Unit {0}) _ (db.pkg p).provides _
      (λ (d : Dep) t q k. elim (Bool-cases (is_null d.spec.version)) [
        | inl e ↦ rw e k
        | inr e ↦ rw e k
      ])
      (All-every _ (db.pkg p).provides (λ _. tt)) h

track_added-Fresh : (d : Dep) (s : State) → Fresh s → Fresh (track_added d s)
unfolding Fresh
track_added-Fresh d s (f, e) =
    ((track_added-Kept d s).flagged f, (track_added-Kept d s).changes ∙ e)

begin_changes-Fresh : (db : Database) (s : State) → Flagged s → Fresh (begin_changes db s)
unfolding begin_changes Fresh
begin_changes-Fresh db s f =
    each_keeps Fresh (λ _. Unit {0}) (λ (p : ℕ). each track_added (db.pkg p).depends) db.installed _
      (λ p t q.
        each_keeps Fresh (λ _. Unit {0}) track_added (db.pkg p).depends t
          (λ d u r. track_added-Fresh d u) (All-every _ (db.pkg p).depends (λ _. tt)))
      (All-every _ db.installed (λ _. tt))
      (each_keeps Fresh (λ _. Unit {0}) (note_installed db) db.installed _
        (λ p t q. note_installed-Fresh db p t) (All-every _ db.installed (λ _. tt)) (f, refl))

change_tasks-TaskSound :
    (db : Database) (world : List Dep) (s : State) → All (TaskSound db s) (change_tasks db world)
unfolding change_tasks
change_tasks-TaskSound db world s =
    All-append (TaskSound db s) (map removal_by_deps db.installed) _
      (All-map (TaskSound db s) removal_by_deps db.installed (All-every _ db.installed (λ _. tt)))
      (All-append (TaskSound db s) (map (λ (d : Dep). gen_dep none d) world) _
        (All-map (TaskSound db s) (λ (d : Dep). gen_dep none d) world (All-every _ world (λ _. tt)))
        (All-map (TaskSound db s) (λ (p : ℕ). name_change (db.pkg p).name) db.installed
          (All-every _ db.installed (λ _. tt))))

begin_changes-Inv :
    (db : Database) (world : List Dep) (s : State)
    → Flagged s
    → Inv db (change_tasks db world) (begin_changes db s)
unfolding Fresh
begin_changes-Inv db world s f =
    let (g, e) = begin_changes-Fresh db s f in
    record {
      flagged = g;
      tasks = change_tasks-TaskSound db world (begin_changes db s);
      changes = subst (All (λ c. NewSound db (begin_changes db s) c.new_pkg)) (sym e) tt;
    }

-- The changes behind a task: those before, and the one that it records.
changes_after :
    (db : Database) (s t : State) (o : Option Change)
    → Kept o s t
    → elim o as (λ _. Type 0) [ none ↦ Unit | some c ↦ NewSound db s c.new_pkg ]
    → All (λ c. NewSound db s c.new_pkg) s.changes
    → All (λ c. NewSound db t c.new_pkg) t.changes
changes_after db s t none k n h =
    subst (All (λ c. NewSound db t c.new_pkg)) (sym k.changes)
      (All-imp _ (λ c. NewSound db t c.new_pkg) s.changes (λ c. NewSound-Kept db k c.new_pkg) h)
changes_after db s t (some c) k n h = subst (All (λ c. NewSound db t c.new_pkg)) (sym k.changes) (
    All-append (λ c. NewSound db t c.new_pkg) s.changes (c ∷ [])
      (All-imp _ (λ c. NewSound db t c.new_pkg) s.changes (λ c. NewSound-Kept db k c.new_pkg) h)
      (NewSound-Kept db k c.new_pkg n, tt))

perform-Inv :
    (db : Database) (t : Task) (ts : List Task) (s : State)
    → Inv db (t ∷ ts) s
    → Inv db ((perform db t s).1 ++ ts) (perform db t s).0
perform-Inv db t ts s i =
    let o = perform-Outcome db t s i.flagged i.tasks.0 in
    record {
      flagged = o.kept.flagged i.flagged;
      tasks = All-append (TaskSound db (perform db t s).0) (perform db t s).1 ts o.tasks (
          All-imp (TaskSound db s) (TaskSound db (perform db t s).0) ts (TaskSound-Kept db o.kept)
            i.tasks.1);
      changes = changes_after db s (perform db t s).0 o.change o.kept o.sound i.changes;
    }

-- In each state of the course of `generate_changeset`, the invariant holds.
pub Reach-Inv :
    (db : Database) (world : List Dep) (s u : State) (ts : List Task)
    → Flagged s
    → Reach db world s ts u
    → Inv db ts u
Reach-Inv db world s _ _ f begun = begin_changes-Inv db world s f
Reach-Inv db world s _ _ f (performed {t} {ts} {u} r) =
    perform-Inv db t ts u (Reach-Inv db world s u (t ∷ ts) f r)

without_errors : (n : ℕ) (b : Bool) → n ≡ 0 → (not (n == 0) || b) ≡ true → b ≡ true
without_errors n b e h = ground arith

-- In each state that `generate_changeset` passes through, from a state where a package in error has
-- been counted: each dependency of the new package of each recorded change is provided by the choice
-- of its name, or is a conflict while conflicts are ignored, or an error has been counted.
pub changes_settled :
    (db : Database) (world : List Dep) (s u : State) (ts : List Task)
    → Flagged s
    → Reach db world s ts u
    → All (λ c. NewSound db u c.new_pkg) u.changes
changes_settled db world s u ts f r = (Reach-Inv db world s u ts f r).changes

-- A dependency of a package that is provided by the choice of its name, or is an ignored conflict.
abbrev pub Provided : Database → State → ℕ → Dep → Type 0
Provided db s p d =
    ((is_conflict d && s.ignore_conflict) || is_provided db (some p) d (s.names d.target).chosen)
    ≡ true

abbrev pub NewProvided : Database → State → Option ℕ → Type 0
NewProvided db s none = Unit
NewProvided db s (some p) = All (Provided db s p) (db.pkg p).depends

settled-Provided :
    (db : Database) (s : State) (p : ℕ) (d : Dep)
    → s.errors ≡ 0
    → settled db s p d ≡ true
    → Provided db s p d
unfolding settled
settled-Provided db s p d e h = without_errors s.errors _ e h

NewSound-NewProvided :
    (db : Database) (s : State) (o : Option ℕ) → s.errors ≡ 0 → NewSound db s o → NewProvided db s o
NewSound-NewProvided db s none e h = tt
NewSound-NewProvided db s (some p) e h =
    All-imp _ (Provided db s p) (db.pkg p).depends (λ d. settled-Provided db s p d e) h

-- Where `generate_changeset` ends with no error counted, from a state where a package in error has
-- been counted: each dependency of the new package of each change is provided by the choice of its
-- name, or is a conflict while conflicts are ignored.
pub changes_provided :
    (fuel : ℕ) (db : Database) (world : List Dep) (s t : State)
    → Flagged s
    → generate_changeset fuel db world s ≡ some t
    → t.errors ≡ 0
    → All (λ c. NewProvided db t c.new_pkg) t.changes
unfolding generate_changeset
changes_provided fuel db world s t f e z =
    All-imp _ (λ c. NewProvided db t c.new_pkg) t.changes
      (λ c. NewSound-NewProvided db t c.new_pkg z)
      (changes_settled db world s t [] f
        (run-Reach fuel db world s (begin_changes db s) t (change_tasks db world) begun e))
