-- ===== src/Hash/Atoms.antt =====
-- The pool of atoms of apk-tools/src/atom.c. An atom is its address and its text; the address of a
-- new one is an argument, since the allocator hands it out.
use alpine_linux_mac_os.Base.{
  ℕ, ◌<◌, true, some, none, [], ◌∷◌, Bytes, length, ◌≡◌, refl, arith, ap, sym, Option-cases, inl,
  inr,
}
use alpine_linux_mac_os.Blob.{Blob}
use alpine_linux_mac_os.Blob.Order.{is_eq, blob_compare}
use alpine_linux_mac_os.Blob.Order.Laws.{blob_compare_iff}
use alpine_linux_mac_os.Hash.{
  Hash, HashOps, is_item, hash_init, hash_from_item, get_hashed, insert_hashed, hash_get,
  hash_insert,
}
use alpine_linux_mac_os.Hash.Laws.{IsKeyed, get-insert}
use alpine_linux_mac_os.Hash.Murmur.{blob_hash}

-- `struct apk_atom_hashnode`.
pub record Atom : Type 0 where
  pub address : ℕ
  pub blob : Bytes

abbrev pub atom_ops : HashOps Atom
atom_ops = record {
  get_key = λ atom. atom.blob;
  hash_key = λ key. blob_hash key;
  hash_item = none;
  compare = λ key itemkey. blob_compare key itemkey;
  compare_item = none;
}

-- `apk_atom_init`.
unfoldable pub atom_init : Hash Atom
unfolding hash_init
atom_init = hash_init 10000

-- `apk_atom_null`, at the address 0.
abbrev pub atom_null : Atom
atom_null = record { address = 0; blob = [] }

-- `apk_atomize_dup`.
unfoldable pub atomize_dup : Hash Atom → ℕ → Blob → Hash Atom × Atom
unfolding get_hashed insert_hashed
atomize_dup atoms address none = (atoms, atom_null)
atomize_dup atoms address (some []) = (atoms, atom_null)
atomize_dup atoms address (some (c ∷ b)) =
    elim (get_hashed atom_ops atoms (c ∷ b) (blob_hash (c ∷ b))) [
      | some atom ↦ (atoms, atom)
      | none ↦
          let atom : Atom = record { address = address; blob = c ∷ b } in
          (insert_hashed atom_ops atoms atom (blob_hash (c ∷ b)), atom)
    ]

atom_ops-IsKeyed : IsKeyed atom_ops
unfolding hash_from_item
atom_ops-IsKeyed = record {
  same = λ key item. (
    λ h. sym ((blob_compare_iff key item.blob).0 (ground arith)),
    λ q. ap is_eq ((blob_compare_iff key item.blob).1 (sym q)),
  );
  hashed = λ item. refl;
}

found :
    (atoms : Hash Atom) (atom : Atom)
    → 0 < length atoms.buckets
    → get_hashed atom_ops
        (insert_hashed atom_ops atoms atom (blob_hash atom.blob))
        atom.blob
        (blob_hash atom.blob)
      ≡ some atom
unfolding hash_get hash_insert hash_from_item
found atoms atom pos =
    let e : is_item atom_ops atom.blob atom ≡ true =
      (atom_ops-IsKeyed.same atom.blob atom).1 refl in
    rw e at (get-insert atom_ops atom_ops-IsKeyed atoms atom atom.blob pos)

-- In a pool with buckets, a text that was made an atom leads to the same atom from then on, and the
-- pool does not change again.
pub atomize_dup_twice :
    (atoms : Hash Atom) (address address' : ℕ) (b : Blob)
    → 0 < length atoms.buckets
    → atomize_dup (atomize_dup atoms address b).0 address' b ≡ atomize_dup atoms address b
unfolding atomize_dup
atomize_dup_twice atoms address address' none pos = refl
atomize_dup_twice atoms address address' (some []) pos = refl
atomize_dup_twice atoms address address' (some (c ∷ b)) pos =
    elim (Option-cases (get_hashed atom_ops atoms (c ∷ b) (blob_hash (c ∷ b)))) [
      | inl e ↦
          let atom : Atom = record { address = address; blob = c ∷ b } in
          let p : atomize_dup atoms address (some (c ∷ b))
              ≡ (insert_hashed atom_ops atoms atom (blob_hash (c ∷ b)), atom) =
            rw (atomize_dup, e) refl in
          rw (p) (rw (atomize_dup, found atoms atom pos) refl)
      | inr (atom, e) ↦
          let p : atomize_dup atoms address (some (c ∷ b)) ≡ (atoms, atom) =
            rw (atomize_dup, e) refl in
          rw (p) (rw (atomize_dup, e) refl)
    ]
