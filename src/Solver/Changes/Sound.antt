-- ===== src/Solver/Changes/Sound.antt =====
-- The changeset is sound: a package that it installs has its dependencies, or an error is counted.
use alpine_linux_mac_os.Base.{ℕ, true, Option, some, none, ◌++◌, List, ◌≡◌, All}
use alpine_linux_mac_os.Solver.{Database, State, Dep, Change}
use alpine_linux_mac_os.Solver.Changes.{Task, dependencies}
use alpine_linux_mac_os.Solver.Changes.Pushed.{All-imp}
use alpine_linux_mac_os.Solver.Changes.Kept.{Flagged, Kept, settled, settled-Kept}

abbrev pub AllSettled : Database → State → ℕ → List Dep → Type 0
AllSettled db s p = All (λ d. settled db s p d ≡ true)

-- What holds of a task on the stack: where the loop over a package's dependencies has come, those
-- before are settled.
abbrev pub TaskSound : Database → State → Task → Type 0
TaskSound db s (dependencies o p ds) =
    (done : List Dep) × (done ++ ds ≡ (db.pkg p).depends) × AllSettled db s p done
TaskSound db s _ = Unit

-- What holds of a change: the dependencies of the new package are settled.
abbrev pub NewSound : Database → State → Option ℕ → Type 0
NewSound db s none = Unit
NewSound db s (some p) = AllSettled db s p (db.pkg p).depends

pub record Inv (db : Database) (ts : List Task) (s : State) : Type 0 where
  pub flagged : Flagged s
  pub tasks : All (TaskSound db s) ts
  pub changes : All (λ c. NewSound db s c.new_pkg) s.changes

module _ (db : Database) {o : Option Change} {s t : State} (k : Kept o s t) where
  pub AllSettled-Kept : (p : ℕ) (ds : List Dep) → AllSettled db s p ds → AllSettled db t p ds
  AllSettled-Kept p ds h =
      All-imp (λ d. settled db s p d ≡ true) (λ d. settled db t p d ≡ true) ds
        (λ d e. settled-Kept db o s t p d k e) h

  pub NewSound-Kept : (q : Option ℕ) → NewSound db s q → NewSound db t q
  NewSound-Kept none h = tt
  NewSound-Kept (some p) h = AllSettled-Kept p (db.pkg p).depends h

  pub TaskSound-Kept : (x : Task) → TaskSound db s x → TaskSound db t x
  TaskSound-Kept (dependencies o p ds) (done, e, h) = (done, e, AllSettled-Kept p done h)
  TaskSound-Kept _ h = h
