-- ===== src/Solver/Changes/Kept.antt =====
-- What no task of the changeset changes: the choices of the names and the packages installed. The
-- count of errors and the marks of what is done only grow.
use alpine_linux_mac_os.Base.{
  ℕ, ◌+◌, ◌-◌, ◌^◌, ◌≤◌, ◌<◌, Bool, true, not, ◌&&◌, ◌||◌, Option, some, none, [], ◌∷◌, ◌++◌, List,
  ◌==◌, ◌≡◌, refl, sym, ap, ◌∙◌, arith, Bool-cases, Option-cases, inl, inr,
}
use alpine_linux_mac_os.Solver.{
  Database, NameState, PackageState, State, Dep, Change, is_conflict, is_provided, set_name,
  set_pkg, each, short, mark_error,
}
use alpine_linux_mac_os.Solver.Changes.{record_change, track_added, start_dep, release}

-- A package in error has been counted.
abbrev pub Flagged : State → Type 0
Flagged s = (p : ℕ) → (s.pkgs p).error ≡ true → 0 < s.errors

-- The changes with the one that is recorded, if any.
abbrev pub recorded : Option Change → List Change → List Change
recorded none cs = cs
recorded (some c) cs = cs ++ c ∷ []

pub record Kept (o : Option Change) (s t : State) : Type 0 where
  pub errors : s.errors ≤ t.errors
  pub chosen : (n : ℕ) → (t.names n).chosen ≡ (s.names n).chosen
  pub ignore : t.ignore_conflict ≡ s.ignore_conflict
  pub flagged : Flagged s → Flagged t
  pub changes : t.changes ≡ recorded o s.changes
  pub installed : (n : ℕ) → (t.names n).installed_pkg ≡ (s.names n).installed_pkg
  pub processed :
      (n : ℕ) → (s.names n).changeset_processed ≡ true → (t.names n).changeset_processed ≡ true
  pub in_changeset : (p : ℕ) → (s.pkgs p).in_changeset ≡ true → (t.pkgs p).in_changeset ≡ true

pub Kept-refl : (s : State) → Kept none s s
Kept-refl s = record {
  errors = omega arith;
  chosen = λ n. refl;
  ignore = refl;
  flagged = λ f. f;
  changes = refl;
  installed = λ n. refl;
  processed = λ n e. e;
  in_changeset = λ p e. e;
}

pub Kept-trans : {o : Option Change} {s t u : State} → Kept none s t → Kept o t u → Kept o s u
Kept-trans {o} k l = record {
  errors = omega (arith, k.errors, l.errors);
  chosen = λ n. l.chosen n ∙ k.chosen n;
  ignore = l.ignore ∙ k.ignore;
  flagged = λ f. l.flagged (k.flagged f);
  changes = l.changes ∙ ap (recorded o) k.changes;
  installed = λ n. l.installed n ∙ k.installed n;
  processed = λ n e. l.processed n (k.processed n e);
  in_changeset = λ p e. l.in_changeset p (k.in_changeset p e);
}

pub set_name-Kept :
    (n : ℕ) (g : NameState → NameState) (s : State)
    → ((x : NameState) → (g x).chosen ≡ x.chosen)
    → ((x : NameState) → (g x).installed_pkg ≡ x.installed_pkg)
    → ((x : NameState) → x.changeset_processed ≡ true → (g x).changeset_processed ≡ true)
    → Kept none s (set_name n g s)
set_name-Kept n g s h i j = record {
  errors = omega arith;
  chosen = λ m. elim (Bool-cases (n == m)) [ inl e ↦ rw e (h (s.names m)) | inr e ↦ rw e refl ];
  ignore = refl;
  flagged = λ f. f;
  changes = refl;
  installed = λ m. elim (Bool-cases (n == m)) [ inl e ↦ rw e (i (s.names m)) | inr e ↦ rw e refl ];
  processed = λ m k. elim (Bool-cases (n == m)) [ inl e ↦ rw e (j (s.names m) k) | inr e ↦ rw e k ];
  in_changeset = λ p e. e;
}

pub set_pkg-Kept :
    (p : ℕ) (g : PackageState → PackageState) (s : State)
    → ((x : PackageState) → (g x).error ≡ x.error)
    → ((x : PackageState) → x.in_changeset ≡ true → (g x).in_changeset ≡ true)
    → Kept none s (set_pkg p g s)
set_pkg-Kept p g s h j = record {
  errors = omega arith;
  chosen = λ m. refl;
  ignore = refl;
  flagged = λ f q e. elim (Bool-cases (p == q)) [
    | inl k ↦ f q (sym (h (s.pkgs q)) ∙ (rw k at e))
    | inr k ↦ f q (rw k at e)
  ];
  changes = refl;
  installed = λ n. refl;
  processed = λ n e. e;
  in_changeset =
      λ q k. elim (Bool-cases (p == q)) [ inl e ↦ rw e (j (s.pkgs q) k) | inr e ↦ rw e k ];
}

pub mark_error-Kept : (o : Option ℕ) (s : State) → Kept none s (mark_error o s)
unfolding mark_error
mark_error-Kept none s = Kept-refl s
mark_error-Kept (some p) s = elim (Bool-cases (s.pkgs p).error) [
  | inl e ↦ rw (mark_error, e) (Kept-refl s)
  | inr e ↦
      rw (mark_error, e)
        (record {
          errors = omega arith;
          chosen = λ n. refl;
          ignore = refl;
          flagged = λ f q k. omega arith;
          changes = refl;
          installed = λ n. refl;
          processed = λ n k. k;
          in_changeset = λ q k. elim (Bool-cases (p == q)) [ inl h ↦ rw h k | inr h ↦ rw h k ];
        })
]

pub each-Kept :
    {A : Type 0} (f : A → State → State) (xs : List A) (s : State)
    → ((x : A) (t : State) → Kept none t (f x t))
    → Kept none s (each f xs s)
each-Kept f [] s h = Kept-refl s
each-Kept f (x ∷ xs) s h = Kept-trans (h x s) (each-Kept f xs (f x s) h)

pub track_added-Kept : (d : Dep) (s : State) → Kept none s (track_added d s)
unfolding track_added
track_added-Kept d s = elim (Bool-cases (is_conflict d)) [
  | inl e ↦ rw (track_added, e) (Kept-refl s)
  | inr e ↦ elim (Option-cases (s.names d.target).installed_name) [
    | inl k ↦ rw (track_added, e, k) (Kept-refl s)
    | inr (m, k) ↦
        rw (track_added, e, k)
          (set_name-Kept m (λ x. record x { requirers = short (x.requirers + 1) }) s (λ x. refl)
            (λ x. refl) (λ x e. e))
  ]
]

-- The change that is recorded is of the packages given.
pub record_change-Kept :
    (db : Database) (opkg npkg : Option ℕ) (s : State)
    → (c : Change) × (c.new_pkg ≡ npkg) × Kept (some c) s (record_change db opkg npkg s)
unfolding record_change
record_change-Kept db opkg none s = (
  _,
  refl,
  record {
    errors = omega arith;
    chosen = λ n. refl;
    ignore = refl;
    flagged = λ f. f;
    changes = refl;
    installed = λ n. refl;
    processed = λ n e. e;
    in_changeset = λ p e. e;
  },
)
record_change-Kept db none (some p) s = (
  _,
  refl,
  record {
    errors = omega arith;
    chosen = λ n. refl;
    ignore = refl;
    flagged = λ f. f;
    changes = refl;
    installed = λ n. refl;
    processed = λ n e. e;
    in_changeset = λ p e. e;
  },
)
record_change-Kept db (some o) (some p) s = (
  _,
  refl,
  record {
    errors = omega arith;
    chosen = λ n. refl;
    ignore = refl;
    flagged = λ f. f;
    changes = refl;
    installed = λ n. refl;
    processed = λ n e. e;
    in_changeset = λ p e. e;
  },
)

pub release-Kept : (d : Dep) (s : State) → Kept none s (release d s).0
unfolding release
release-Kept d s = elim (Bool-cases (is_conflict d)) [
  | inl e ↦ rw (release, e) (Kept-refl s)
  | inr e ↦ elim (Option-cases (s.names d.target).installed_name) [
    | inl k ↦ rw (release, e, k) (Kept-refl s)
    | inr (m, k) ↦
        let g : NameState → NameState =
          λ x. record x { requirers = short (x.requirers + (2 ^ 16 - 1)) } in
        let h = set_name-Kept m g s (λ x. refl) (λ x. refl) (λ x e. e) in
        elim (Bool-cases (((set_name m g s).names m).requirers == 0)) [
          | inl z ↦ rw (release, e, k, z) h
          | inr z ↦ rw (release, e, k, z) h
        ]
  ]
]

pub start_dep-Kept :
    (db : Database) (ppkg : Option ℕ) (d : Dep) (s : State) → Kept none s (start_dep db ppkg d s).0
unfolding start_dep
start_dep-Kept db ppkg d s = elim (Bool-cases (is_conflict d && s.ignore_conflict)) [
  | inl e ↦ rw (start_dep, e) (Kept-refl s)
  | inr e ↦ elim (Bool-cases (is_provided db ppkg d (s.names d.target).chosen)) [
    | inl k ↦ rw (start_dep, e, k) (Kept-refl s)
    | inr k ↦ rw (start_dep, e, k) (mark_error-Kept ppkg s)
  ]
]

-- A dependency of a package: it is provided by the choice of its name, it is a conflict that is
-- ignored, or an error has been counted.
unfoldable pub settled : Database → State → ℕ → Dep → Bool
settled db s p d =
    not (s.errors == 0)
    || ((is_conflict d && s.ignore_conflict) || is_provided db (some p) d (s.names d.target).chosen)

more_errors : (m n : ℕ) (b : Bool) → m ≤ n → (not (m == 0) || b) ≡ true → (not (n == 0) || b) ≡ true
more_errors m n b h k = ground arith

pub settled-Kept :
    (db : Database) (o : Option Change) (s t : State) (p : ℕ) (d : Dep)
    → Kept o s t
    → settled db s p d ≡ true
    → settled db t p d ≡ true
unfolding settled
settled-Kept db o s t p d k h =
    rw (k.chosen d.target, k.ignore)
      (more_errors s.errors t.errors
        ((is_conflict d && s.ignore_conflict)
          || is_provided db (some p) d (s.names d.target).chosen)
        k.errors h)
