-- ===== src/Solver/Changes/Pushed.antt =====
-- The lists of tasks that a task of the changeset pushes for its loops over packages and names.
use alpine_linux_mac_os.Base.{
  ℕ, ◌+◌, ◌-◌, ◌^◌, Bool, true, false, ◌&&◌, if◌then◌else◌, Option, some, none, [], ◌∷◌, ◌++◌, List,
  map, ◌==◌, ◌≡◌, refl, sym, ◌∙◌, Bool-cases, Option-cases, inl, inr, All,
}
use alpine_linux_mac_os.Dependency.Matching.{satisfies, dep_analyze}
use alpine_linux_mac_os.Solver.{
  Database, NameState, State, Dep, Provide, is_conflict, set_name, short,
}
use alpine_linux_mac_os.Solver.Changes.{
  Task, name_change, dep_done, remove, start_dep, release, reverse_dependencies, by_reverse_iif,
  orphan, of_names, of_provides, of_providers, iif_names, satisfied, chooses_itself, is_some,
}
use alpine_linux_mac_os.Solver.Changes.Kept.{set_name-Kept}

pub All-append :
    {A : Type 0} (P : A → Type 0) (xs ys : List A) → All P xs → All P ys → All P (xs ++ ys)
All-append P [] ys h k = k
All-append P (x ∷ xs) ys (h, hs) k = (h, All-append P xs ys hs k)

pub All-imp :
    {A : Type 0} (P Q : A → Type 0) (xs : List A) → ((x : A) → P x → Q x) → All P xs → All Q xs
All-imp P Q [] f h = tt
All-imp P Q (x ∷ xs) f (h, hs) = (f x h, All-imp P Q xs f hs)

pub All-map :
    {A B : Type 0} (P : B → Type 0) (g : A → B) (xs : List A)
    → All (λ x. P (g x)) xs
    → All P (map g xs)
All-map P g [] h = tt
All-map P g (x ∷ xs) (h, hs) = (h, All-map P g xs hs)

pub All-every : {A : Type 0} (P : A → Type 0) (xs : List A) → ((x : A) → P x) → All P xs
All-every P [] f = tt
All-every P (x ∷ xs) f = (f x, All-every P xs f)

-- A task under a test, and for the package of a name under a test.
pub All-if : (P : Task → Type 0) (b : Bool) (t : Task) → P t → All P (if b then t ∷ [] else [])
All-if P true t h = (h, tt)
All-if P false t h = tt

pub All-option :
    (P : Task → Type 0) (o : Option ℕ) (b : ℕ → Bool) (t : ℕ → Task)
    → ((p : ℕ) → o ≡ some p → P (t p))
    → All P (elim o as (λ _. List Task) [ none ↦ [] | some p ↦ if b p then t p ∷ [] else [] ])
All-option P none b t h = tt
All-option P (some p) b t h = All-if P (b p) (t p) (h p refl)

-- What holds of the removal of each provider holds of the tasks for the reverse dependencies, and
-- so for the other loops.
module _ (P : Task → Type 0) (db : Database)
    (h : (n : ℕ) → All (λ (q : Provide). P (remove q.pkg)) (db.name n).providers) where
  satisfied-All : (p p0 : ℕ) (ds : List Dep) → P (remove p0) → All P (satisfied db p p0 ds)
  unfolding satisfied
  satisfied-All p p0 [] k = tt
  satisfied-All p p0 (d ∷ ds) k =
      elim (Option-cases
        (dep_analyze db.stack (some (db.pkg p0).matched) d.spec (some (db.pkg p).matched))) [
          | inl e ↦ rw (satisfied, e) (satisfied-All p p0 ds k)
          | inr (satisfies, e) ↦ rw (satisfied, e) (k, satisfied-All p p0 ds k)
          | inr (_, e) ↦ rw (satisfied, e) (satisfied-All p p0 ds k)
        ]

  of_providers-All :
      (p : ℕ) (qs : List Provide)
      → All (λ (q : Provide). P (remove q.pkg)) qs
      → All P (of_providers db p qs)
  unfolding of_providers
  of_providers-All p [] k = tt
  of_providers-All p (q ∷ qs) (k, ks) = elim (Bool-cases (is_some (db.pkg q.pkg).ipkg)) [
    | inl e ↦ rw e (
        All-append P (satisfied db p q.pkg (db.pkg q.pkg).depends) (of_providers db p qs)
          (satisfied-All p q.pkg (db.pkg q.pkg).depends k) (of_providers-All p qs ks))
    | inr e ↦ rw e (of_providers-All p qs ks)
  ]

  of_names-All : (p : ℕ) (ns : List ℕ) → All P (of_names db p ns)
  unfolding of_names
  of_names-All p [] = tt
  of_names-All p (n ∷ ns) =
      All-append P (of_providers db p (db.name n).providers) (of_names db p ns)
        (of_providers-All p (db.name n).providers (h n)) (of_names-All p ns)

  of_provides-All : (p : ℕ) (ds : List Dep) → All P (of_provides db p ds)
  unfolding of_provides
  of_provides-All p [] = tt
  of_provides-All p (d ∷ ds) =
      All-append P (of_names db p (db.name d.target).rdepends) (of_provides db p ds)
        (of_names-All p (db.name d.target).rdepends) (of_provides-All p ds)

  pub reverse_dependencies-All : (p : ℕ) → All P (reverse_dependencies db p)
  unfolding reverse_dependencies
  reverse_dependencies-All p =
      All-append P (of_names db p (db.name (db.pkg p).name).rdepends)
        (of_provides db p (db.pkg p).provides) (of_names-All p (db.name (db.pkg p).name).rdepends)
        (of_provides-All p (db.pkg p).provides)

module _ (P : Task → Type 0) (db : Database) (check : ℕ → Task)
    (h : (n : ℕ) → All (λ k. P (check k)) (db.name n).rinstall_if) where
  iif_names-All : (ds : List Dep) → All (λ k. P (check k)) (iif_names db ds)
  iif_names-All [] = tt
  iif_names-All (d ∷ ds) =
      All-append (λ k. P (check k)) (db.name d.target).rinstall_if (iif_names db ds) (h d.target)
        (iif_names-All ds)

  pub by_reverse_iif-All : (o : Option ℕ) → All P (by_reverse_iif db check o)
  unfolding by_reverse_iif
  by_reverse_iif-All none = tt
  by_reverse_iif-All (some p) =
      All-map P check ((db.name (db.pkg p).name).rinstall_if ++ iif_names db (db.pkg p).provides) (
        All-append (λ k. P (check k)) (db.name (db.pkg p).name).rinstall_if
          (iif_names db (db.pkg p).provides) (h (db.pkg p).name)
          (iif_names-All (db.pkg p).provides))

pub orphan-All :
    (P : Task → Type 0) (db : Database) (s : State) (n : ℕ)
    → ((p : ℕ) → (s.names n).installed_pkg ≡ some p → P (remove p))
    → All P (orphan db s n)
orphan-All P db s n h = elim (Option-cases (s.names n).installed_pkg) [
  | inl e ↦ rw (orphan, e) tt
  | inr (p, e) ↦ elim (Bool-cases (chooses_itself db s n)) [
    | inl k ↦ rw (orphan, e, k) tt
    | inr k ↦ rw (orphan, e, k) (h p e, tt)
  ]
]

pub start_dep-All :
    (P : Task → Type 0) (db : Database) (o : Option ℕ) (d : Dep) (s : State)
    → P (name_change d.target)
    → ((c : Option ℕ) → P (dep_done o c))
    → All P (start_dep db o d s).1
unfolding start_dep
start_dep-All P db o d s h k = elim (Bool-cases (is_conflict d && s.ignore_conflict)) [
  | inl e ↦ rw (start_dep, e) tt
  | inr e ↦ rw (start_dep, e) (h, (k (s.names d.target).chosen.pkg, tt))
]

pub release-All :
    (P : Task → Type 0) (d : Dep) (s : State)
    → ((p : ℕ) → (s.names d.target).installed_pkg ≡ some p → P (remove p))
    → All P (release d s).1
unfolding release
release-All P d s h = elim (Bool-cases (is_conflict d)) [
  | inl e ↦ rw (release, e) tt
  | inr e ↦ elim (Option-cases (s.names d.target).installed_name) [
    | inl k ↦ rw (release, e, k) tt
    | inr (m, k) ↦
        let g : NameState → NameState =
          λ x. record x { requirers = short (x.requirers + (2 ^ 16 - 1)) } in
        let u : State = set_name m g s in
        let same = (set_name-Kept m g s (λ x. refl) (λ x. refl) (λ x e. e)).installed d.target in
        elim (Bool-cases ((u.names m).requirers == 0)) [
          | inl z ↦ elim (Option-cases (u.names d.target).installed_pkg) [
            | inl j ↦ rw (release, e, k, z, j) tt
            | inr (p, j) ↦ rw (release, e, k, z, j) (h p (sym same ∙ j), tt)
          ]
          | inr z ↦ rw (release, e, k, z) tt
        ]
  ]
]
