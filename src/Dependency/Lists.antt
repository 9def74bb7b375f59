-- ===== src/Dependency/Lists.antt =====
-- `apk_deps_add` and `apk_deps_del` of package.c, on the dependencies of an array.
use alpine_linux_mac_os.Base.{
  Bool, true, false, Option, some, none, [], ◌∷◌, List, Bytes, if◌then◌else◌, ◌≡◌, refl, arith,
  Bool-cases, inl, inr, ap, All, sym, ◌↔◌, ◌∙◌,
}
use alpine_linux_mac_os.Blob.Order.{blob_compare, is_eq}
use alpine_linux_mac_os.Blob.Order.Laws.{blob_compare_iff}
use alpine_linux_mac_os.Dependency.{Dependency}

-- Two names are one `struct apk_name` exactly if their texts are equal.
abbrev pub same_name : Bytes → Bytes → Bool
same_name a b = is_eq (blob_compare a b)

-- `apk_deps_add`.
unfoldable pub deps_add : List Dependency → Dependency → List Dependency
deps_add [] dep = dep ∷ []
deps_add (d0 ∷ deps) dep =
    let later = deps_add deps dep in if same_name d0.name dep.name then dep ∷ deps else d0 ∷ later

-- The last item of an array that is not empty, and the items before it.
abbrev pub last : Dependency → List Dependency → Dependency
last d [] = d
last d (e ∷ deps) = last e deps

abbrev pub front : Dependency → List Dependency → List Dependency
front d [] = []
front d (e ∷ deps) = d ∷ front e deps

-- The item is overwritten by the last one, and the array is cut by one.
abbrev pub remove_head : List Dependency → List Dependency
remove_head [] = []
remove_head (e ∷ deps) = last e deps ∷ front e deps

-- `apk_deps_del`.
unfoldable pub deps_del : List Dependency → Bytes → List Dependency
deps_del [] name = []
deps_del (d0 ∷ deps) name =
    let later = deps_del deps name in
    if same_name d0.name name then remove_head deps else d0 ∷ later

-- The first dependency on a name.
unfoldable pub find_dep : Bytes → List Dependency → Option Dependency
find_dep name [] = none
find_dep name (d ∷ deps) = if same_name d.name name then some d else find_dep name deps

-- No two dependencies are on one name.
abbrev pub Distinct : List Dependency → Type 0
Distinct [] = Unit
Distinct (d ∷ deps) = All (λ e. same_name d.name e.name ≡ false) deps × Distinct deps

pub same_iff : (a b : Bytes) → (same_name a b ≡ true) ↔ (a ≡ b)
same_iff a b =
    (λ h. (blob_compare_iff a b).0 (ground arith), λ e. ground (arith, (blob_compare_iff a b).1 e))

pub same_left : (a b c : Bytes) → same_name a b ≡ true → same_name a c ≡ same_name b c
same_left a b c h = let e : a ≡ b = (same_iff a b).0 h in ap (λ x. same_name x c) e

same_right : (a b c : Bytes) → same_name b c ≡ true → same_name a b ≡ same_name a c
same_right a b c h = let e : b ≡ c = (same_iff b c).0 h in ap (λ x. same_name a x) e

-- In the list that `apk_deps_add` leaves, the name of the added dependency leads to it first, and
-- every other name to the dependency to which it led before.
pub find-deps_add :
    (deps : List Dependency) (dep : Dependency) (name : Bytes)
    → find_dep name (deps_add deps dep)
      ≡ (if same_name dep.name name then some dep else find_dep name deps)
unfolding find_dep deps_add
find-deps_add [] dep name = ground arith
find-deps_add (d ∷ deps) dep name = elim (Bool-cases (same_name d.name dep.name)) [
  | inl e ↦ rw (e, same_left d.name dep.name name e) (ground arith)
  | inr e ↦ elim (Bool-cases (same_name dep.name name)) [
    | inl f ↦
        let g : same_name d.name name ≡ false = sym (same_right d.name dep.name name f) ∙ e in
        rw (e, f, g) (rw f at (find-deps_add deps dep name))
    | inr f ↦ rw (e, f) (rw (rw f at (find-deps_add deps dep name)) refl)
  ]
]

pub find-absent :
    (name : Bytes) (deps : List Dependency)
    → All (λ d. same_name d.name name ≡ false) deps
    → find_dep name deps ≡ none
unfolding find_dep
find-absent name [] h = refl
find-absent name (d ∷ deps) (hd, hs) = rw hd (find-absent name deps hs)
