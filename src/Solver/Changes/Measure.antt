-- ===== src/Solver/Changes/Measure.antt =====
-- What is left to do of a changeset over a finite database: the names that are not processed and
-- the packages that are not in the changeset.
use alpine_linux_mac_os.Base.{
  ℕ, zero, suc, ◌+◌, ◌≤◌, ◌<◌, Bool, true, false, not, Option, some, List, ◌==◌, ◌≡◌, sym, ap, ◌∙◌,
  arith, Bool-cases, inl, inr, All,
}
use alpine_linux_mac_os.Solver.{Database, State, Dep, Provide, Change, bit}
use alpine_linux_mac_os.Solver.Changes.Kept.{Kept}

-- Every link of the database leads to a name or a package below `n`.
pub record Closed (db : Database) (ds : List Dep) (n : ℕ) : Type 0 where
  pub name : (p : ℕ) → (db.pkg p).name < n
  pub depends : (p : ℕ) → All (λ (d : Dep). d.target < n) (db.pkg p).depends
  pub provides : (p : ℕ) → All (λ (d : Dep). d.target < n) (db.pkg p).provides
  pub providers : (m : ℕ) → All (λ (q : Provide). q.pkg < n) (db.name m).providers
  pub rinstall_if : (m : ℕ) → All (λ (k : ℕ). k < n) (db.name m).rinstall_if
  pub installed : All (λ (p : ℕ). p < n) db.installed
  pub targets : All (λ (d : Dep). d.target < n) ds

-- The packages that the names point to are below `n`.
pub record Below (n : ℕ) (s : State) : Type 0 where
  pub chosen : (m p : ℕ) → (s.names m).chosen.pkg ≡ some p → p < n
  pub installed : (m p : ℕ) → (s.names m).installed_pkg ≡ some p → p < n

-- The numbers below `n` without a mark.
unfoldable pub left : ℕ → (ℕ → Bool) → ℕ
left zero f = 0
left (suc n) f = bit (not (f n)) + left n f

left_le : (n : ℕ) (f g : ℕ → Bool) → ((m : ℕ) → f m ≡ true → g m ≡ true) → left n g ≤ left n f
unfolding left
left_le zero f g h = omega arith
left_le (suc n) f g h =
    let rest = left_le n f g h in
    elim (Bool-cases (f n)) [
      | inl e ↦ rw (e, h n e) (omega arith)
      | inr e ↦ elim (Bool-cases (g n)) [
        | inl k ↦ rw (e, k) (omega arith)
        | inr k ↦ rw (e, k) (omega arith)
      ]
    ]

left_lt :
    (n m : ℕ) (f g : ℕ → Bool)
    → ((m : ℕ) → f m ≡ true → g m ≡ true)
    → m < n
    → f m ≡ false
    → g m ≡ true
    → left n g < left n f
unfolding left
left_lt zero m f g h l a b = absurd (omega arith)
left_lt (suc n) m f g h l a b = elim (Bool-cases (n == m)) [
  | inl e ↦
      let k : n ≡ m = ground arith in
      let rest = left_le n f g h in rw (ap f k ∙ a, ap g k ∙ b) (omega arith)
  | inr e ↦
      let rest = left_lt n m f g h (ground arith) a b in
      elim (Bool-cases (f n)) [
        | inl k ↦ rw (k, h n k) (omega arith)
        | inr k ↦ elim (Bool-cases (g n)) [
          | inl j ↦ rw (k, j) (omega arith)
          | inr j ↦ rw (k, j) (omega arith)
        ]
      ]
]

unfoldable pub remaining : ℕ → State → ℕ
remaining n s =
    left n (λ m. (s.names m).changeset_processed) + left n (λ p. (s.pkgs p).in_changeset)

pub Kept-remaining :
    {o : Option Change} {s t : State} (n : ℕ) → Kept o s t → remaining n t ≤ remaining n s
unfolding remaining
Kept-remaining n k = omega (arith, left_le n _ _ k.processed, left_le n _ _ k.in_changeset)

pub Kept-Below : {o : Option Change} {s t : State} {n : ℕ} → Kept o s t → Below n s → Below n t
Kept-Below k b = record {
  chosen = λ m p e. b.chosen m p (ap (λ c. c.pkg) (sym (k.chosen m)) ∙ e);
  installed = λ m p e. b.installed m p (sym (k.installed m) ∙ e);
}

-- A mark that is set leaves less to do.
pub processed_less :
    {o : Option Change} {s t : State} (n m : ℕ)
    → Kept o s t
    → m < n
    → (s.names m).changeset_processed ≡ false
    → (t.names m).changeset_processed ≡ true
    → remaining n t < remaining n s
unfolding remaining
processed_less n m k l a b =
    omega (arith, left_lt n m _ _ k.processed l a b, left_le n _ _ k.in_changeset)

pub in_changeset_less :
    {o : Option Change} {s t : State} (n p : ℕ)
    → Kept o s t
    → p < n
    → (s.pkgs p).in_changeset ≡ false
    → (t.pkgs p).in_changeset ≡ true
    → remaining n t < remaining n s
unfolding remaining
in_changeset_less n p k l a b =
    omega (arith, left_le n _ _ k.processed, left_lt n p _ _ k.in_changeset l a b)
