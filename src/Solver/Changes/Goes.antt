-- ===== src/Solver/Changes/Goes.antt =====
-- Tasks that end: what it says of the stack of tasks of `generate_changeset` of
-- apk-tools/src/solver.c, whatever the tasks are.
use alpine_linux_mac_os.Base.{ℕ, suc, ◌≤◌, ◌<◌, Option, some, [], ◌∷◌, ◌++◌, List, ◌≡◌, arith, All}
use alpine_linux_mac_os.Solver.{Database, State, Dep, Change}
use alpine_linux_mac_os.Solver.Changes.{
  Task, name_change, dependencies, preprocess, preprocess_provider, remove, removal_by_deps,
  install_by_iif, gen_dep, perform, run,
}
use alpine_linux_mac_os.Solver.Changes.Kept.{Kept}
use alpine_linux_mac_os.Solver.Changes.Measure.{Below, remaining, Kept-remaining, Kept-Below}

abbrev pub Halts : Database → List Task → State → Type 0
Halts db ts s = (fuel : ℕ) × (t : State) × (run fuel db ts s ≡ some t)

abbrev pub Within : ℕ → ℕ → State → Type 0
Within n k s = Below n s × (remaining n s ≤ k)

-- The tasks end in front of tasks that end.
abbrev pub Goes : Database → ℕ → ℕ → List Task → Type 0
Goes db n k ts =
    (rest : List Task)
    → ((s : State) → Within n k s → Halts db rest s)
    → (s : State) → Within n k s
    → Halts db (ts ++ rest) s

-- What a task leaves ends, with as much left to do or less.
pub record Moves (db : Database) (n k : ℕ) (r : State × List Task) : Type 0 where
  pub bound : ℕ
  pub bound_le : bound ≤ k
  pub within : Within n bound r.0
  pub goes : Goes db n bound r.1

-- What a task needs for its marks: the numbers that it names are below `n`.
abbrev pub TaskBelow : ℕ → Task → Type 0
TaskBelow n (name_change m) = m < n
TaskBelow n (dependencies o p ds) = All (λ (d : Dep). d.target < n) ds
TaskBelow n (preprocess m) = m < n
TaskBelow n (preprocess_provider q) = q.pkg < n
TaskBelow n (remove p) = p < n
TaskBelow n (removal_by_deps p) = p < n
TaskBelow n (install_by_iif m) = m < n
TaskBelow n (gen_dep o d) = d.target < n
TaskBelow n _ = Unit

Halts-step :
    (db : Database) (x : Task) (ts : List Task) (s : State)
    → Halts db ((perform db x s).1 ++ ts) (perform db x s).0
    → Halts db (x ∷ ts) s
unfolding run
Halts-step db x ts s (fuel, t, e) = (suc fuel, t, e)

module _ (db : Database) (n k : ℕ) where
  Goes-cons :
      (x : Task) (ts : List Task) → Goes db n k (x ∷ []) → Goes db n k ts → Goes db n k (x ∷ ts)
  Goes-cons x ts g h rest f = g (ts ++ rest) (h rest f)

  pub Goes-all : (ts : List Task) → All (λ x. Goes db n k (x ∷ [])) ts → Goes db n k ts
  Goes-all [] h rest f s w = f s w
  Goes-all (x ∷ ts) (h, hs) rest f s w = Goes-cons x ts h (Goes-all ts hs) rest f s w

  pub step-Goes :
      (x : Task)
      → ((s : State) → Within n k s → Moves db n k (perform db x s))
      → Goes db n k (x ∷ [])
  step-Goes x m rest f s w =
      let r = m s w in
      let le = r.bound_le in
      Halts-step db x rest s
        (r.goes rest (λ t v. let l = v.1 in f t (v.0, omega arith)) (perform db x s).0 r.within)

  -- A task with no mark: the tasks that it leaves end.
  pub stays :
      {o : Option Change} (s : State) (r : State × List Task)
      → Kept o s r.0
      → Within n k s
      → Goes db n k r.1
      → Moves db n k r
  stays s r h (b, l) g =
      let m = Kept-remaining n h in
      record { bound = k; bound_le = omega arith; within = (Kept-Below h b, omega arith); goes = g }

  pub quiet-Goes :
      (x : Task)
      → ((s : State) → (o : Option Change) × Kept o s (perform db x s).0)
      → ((s : State) → Below n s → Goes db n k (perform db x s).1)
      → Goes db n k (x ∷ [])
  quiet-Goes x h g = step-Goes x (λ s w. stays s (perform db x s) (h s).1 w (g s w.0))
