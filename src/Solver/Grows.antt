-- ===== src/Solver/Grows.antt =====
-- What no operation of apk-tools/src/solver.c takes back: a name that is locked keeps its lock and its
-- choice, the count of errors does not fall, and a package in error has been counted.
pub mod Queues
pub mod Reconsider
pub mod Select
pub mod Search
use alpine_linux_mac_os.Base.{
  ℕ, ◌≤◌, ◌<◌, Bool, true, false, Option, some, none, [], ◌∷◌, List, ◌==◌, if◌then◌else◌, ◌≡◌, refl,
  sym, ap, ◌∙◌, arith, Bool-cases, inl, inr,
}
use alpine_linux_mac_os.Solver.{NameState, PackageState, State, set_name, set_pkg, each, mark_error}
use alpine_linux_mac_os.Solver.Changes.Kept.{Flagged}

pub record Grows (s t : State) : Type 0 where
  pub errors : s.errors ≤ t.errors
  pub locked : (n : ℕ) → (s.names n).locked ≡ true → (t.names n).locked ≡ true
  pub chosen : (n : ℕ) → (s.names n).locked ≡ true → (t.names n).chosen ≡ (s.names n).chosen
  pub flagged : Flagged s → Flagged t

pub Grows-refl : (s : State) → Grows s s
Grows-refl s = record {
  errors = omega arith;
  locked = λ n e. e;
  chosen = λ n e. refl;
  flagged = λ f. f;
}

pub Grows-trans : {s t u : State} → Grows s t → Grows t u → Grows s u
Grows-trans g h = record {
  errors = omega (arith, g.errors, h.errors);
  locked = λ n e. h.locked n (g.locked n e);
  chosen = λ n e. h.chosen n (g.locked n e) ∙ g.chosen n e;
  flagged = λ f. h.flagged (g.flagged f);
}

-- A step that changes neither names, packages nor errors.
pub same-Grows :
    {s t : State} → t.names ≡ s.names → t.pkgs ≡ s.pkgs → t.errors ≡ s.errors → Grows s t
same-Grows {s} {t} a b c = record {
  errors = omega arith;
  locked = λ n e. ap (λ f. (f n).locked) a ∙ e;
  chosen = λ n e. ap (λ f. (f n).chosen) a;
  flagged = λ f p e. let h = f p (ap (λ g. (g p).error) (sym b) ∙ e) in omega arith;
}

pub set_name-Grows :
    (n : ℕ) (g : NameState → NameState) (s : State)
    → ((x : NameState) → (g x).locked ≡ x.locked)
    → ((x : NameState) → (g x).chosen ≡ x.chosen)
    → Grows s (set_name n g s)
set_name-Grows n g s h k = record {
  errors = omega arith;
  locked = λ m l. elim (Bool-cases (n == m)) [ inl e ↦ rw e (h (s.names m) ∙ l) | inr e ↦ rw e l ];
  chosen = λ m l. elim (Bool-cases (n == m)) [ inl e ↦ rw e (k (s.names m)) | inr e ↦ rw e refl ];
  flagged = λ f. f;
}

-- A step that keeps which packages are in error.
pub pkgs-Grows :
    {s t : State}
    → t.names ≡ s.names
    → t.errors ≡ s.errors
    → ((p : ℕ) → (t.pkgs p).error ≡ (s.pkgs p).error)
    → Grows s t
pkgs-Grows {s} {t} a b h = record {
  errors = omega arith;
  locked = λ n e. ap (λ f. (f n).locked) a ∙ e;
  chosen = λ n e. ap (λ f. (f n).chosen) a;
  flagged = λ f p e. let k = f p (sym (h p) ∙ e) in omega arith;
}

pub set_pkg-Grows :
    (p : ℕ) (g : PackageState → PackageState) (s : State)
    → ((x : PackageState) → (g x).error ≡ x.error)
    → Grows s (set_pkg p g s)
set_pkg-Grows p g s h =
    pkgs-Grows refl refl
      (λ q. elim (Bool-cases (p == q)) [ inl e ↦ rw e (h (s.pkgs q)) | inr e ↦ rw e refl ])

pub if-Grows :
    (s : State) (b : Bool) (x y : State) → Grows s x → Grows s y → Grows s (if b then x else y)
if-Grows s true x y g h = g
if-Grows s false x y g h = h

pub option-Grows :
    {A : Type 0} (s : State) (o : Option A) (x : State) (f : A → State)
    → Grows s x
    → ((a : A) → Grows s (f a))
    → Grows s (elim o as (λ _. State) [ none ↦ x | some a ↦ f a ])
option-Grows s none x f g h = g
option-Grows s (some a) x f g h = h a

pub each-Grows :
    {A : Type 0} (f : A → State → State) (xs : List A) (s : State)
    → ((x : A) (t : State) → Grows t (f x t))
    → Grows s (each f xs s)
each-Grows f [] s h = Grows-refl s
each-Grows f (x ∷ xs) s h = Grows-trans (h x s) (each-Grows f xs (f x s) h)

pub mark_error-Grows : (o : Option ℕ) (s : State) → Grows s (mark_error o s)
unfolding mark_error
mark_error-Grows none s = Grows-refl s
mark_error-Grows (some p) s = if-Grows s (s.pkgs p).error s _ (Grows-refl s) (record {
  errors = omega arith;
  locked = λ n e. e;
  chosen = λ n e. refl;
  flagged = λ f q k. omega arith;
})
