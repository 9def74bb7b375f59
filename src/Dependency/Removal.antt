-- ===== src/Dependency/Removal.antt =====
-- What `apk_deps_del` leaves of a list of dependencies.
use alpine_linux_mac_os.Base.{
  true, false, none, [], ◌∷◌, List, Bytes, ◌≡◌, refl, arith, Bool-cases, inl, inr, All, sym, ◌∙◌,
}
use alpine_linux_mac_os.Dependency.{Dependency}
use alpine_linux_mac_os.Dependency.Lists.{
  same_name, last, front, remove_head, deps_del, find_dep, Distinct, same_iff, find-absent,
}

module _ (P : Dependency → Type 0) where
  All-last : (e : Dependency) (deps : List Dependency) → P e → All P deps → P (last e deps)
  All-last e [] h hs = h
  All-last e (f ∷ deps) h (k, hs) = All-last f deps k hs

  All-front : (e : Dependency) (deps : List Dependency) → P e → All P deps → All P (front e deps)
  All-front e [] h hs = tt
  All-front e (f ∷ deps) h (k, hs) = (h, All-front f deps k hs)

  All-remove_head : (deps : List Dependency) → All P deps → All P (remove_head deps)
  All-remove_head [] h = tt
  All-remove_head (e ∷ deps) (h, hs) = (All-last e deps h hs, All-front e deps h hs)

-- A name that differs from that of a dependency, seen from the other side.
others :
    (d : Dependency) (name : Bytes) (deps : List Dependency)
    → d.name ≡ name
    → All (λ e. same_name d.name e.name ≡ false) deps
    → All (λ e. same_name e.name name ≡ false) deps
others d name [] e h = tt
others d name (f ∷ deps) e (h, hs) = (
  elim (Bool-cases (same_name f.name name)) [
    | inl k ↦
        let q : same_name d.name f.name ≡ true =
          (same_iff d.name f.name).1 (e ∙ sym ((same_iff f.name name).0 k)) in
        ground arith
    | inr k ↦ k
  ],
  others d name deps e hs,
)

-- In a list whose dependencies are on different names, no dependency on the name is left by
-- `apk_deps_del`.
pub find-deps_del :
    (deps : List Dependency) (name : Bytes)
    → Distinct deps
    → find_dep name (deps_del deps name) ≡ none
unfolding deps_del find_dep
find-deps_del [] name h = refl
find-deps_del (d ∷ deps) name (h, hs) = elim (Bool-cases (same_name d.name name)) [
  | inl e ↦
      rw (deps_del, e)
        (find-absent name (remove_head deps) (
          All-remove_head (λ f. same_name f.name name ≡ false) deps
            (others d name deps ((same_iff d.name name).0 e) h)))
  | inr e ↦ rw (deps_del, e, find_dep, e) (find-deps_del deps name hs)
]
