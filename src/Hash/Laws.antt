-- ===== src/Hash/Laws.antt =====
-- The hash table is a map: what `apk_hash_get` finds behind an insertion or a deletion. The hash
-- function is any function of the key.
use alpine_linux_mac_os.Base.{
  ℕ, zero, suc, ◌+◌, ◌-◌, ◌%◌, ◌<◌, Bool, Ordering, true, false, some, none, [], ◌∷◌, List, Bytes,
  length, get_or, set, replicate, ◌==◌, if◌then◌else◌, ◌≡◌, ◌≢◌, ◌↔◌, refl, arith, ap, sym, ◌∙◌,
  Bool-cases, inl, inr, length-set, get_or-set_self, get_or-set_ne, get_or-replicate, ==_iff,
}
use native.Mathlib.Nat.{mod-lt}
use alpine_linux_mac_os.Hash.{
  Hash, HashOps, hash_init, with_bucket, is_item, find_item, get_hashed, insert_hashed, delete_item,
  delete_hashed, unlink, hash_get, hash_insert, hash_from_item,
}

-- What the table asks of its operations: the comparisons tell equal keys, and the hash of an item
-- is that of its key.
pub record IsKeyed {A : Type 0} (ops : HashOps A) : Type 0 where
  pub same : (key : Bytes) (item : A) → (is_item ops key item ≡ true) ↔ (ops.get_key item ≡ key)
  pub hashed : (item : A) → hash_from_item ops item ≡ ops.hash_key (ops.get_key item)

false-true : false ≢ true
false-true h = ground arith

-- A list put at an index leads to it there and changes no other index.
get_or-set :
    {A : Type 0}
    → (xs : List A) (i j : ℕ) (x d : A) → i < length xs
    → get_or (set xs i x) j d ≡ (if i == j then x else get_or xs j d)
get_or-set xs i j x d lt = elim (Bool-cases (i == j)) [
  | inl e ↦ rw (e, sym ((==_iff i j).0 e)) (get_or-set_self xs i x d lt)
  | inr e ↦ rw (e) (get_or-set_ne xs i j x d (λ same. false-true (sym e ∙ (==_iff i j).1 same)))
]

set-set : {A : Type 0} → (xs : List A) (i : ℕ) (x d : A) → set (set xs i x) i (get_or xs i d) ≡ xs
set-set [] i x d = refl
set-set (y ∷ xs) zero x d = refl
set-set (y ∷ xs) (suc i) x d = ap (λ ys. y ∷ ys) (set-set xs i x d)

abbrev counted : {A : Type 0} → List (List A) → ℕ → Hash A
counted buckets n = record { buckets = buckets; num_items = n }

add-sub : (n : ℕ) → n + 1 - 1 ≡ n
add-sub n = omega arith

module _ {A : Type 0} (ops : HashOps A) (k : IsKeyed ops) where
  pub get-init : (n : ℕ) (key : Bytes) → hash_get ops (hash_init n) key ≡ none
  unfolding hash_get hash_init get_hashed find_item
  get-init n key =
      ap (find_item ops key)
        (get_or-replicate n (ops.hash_key key % length (replicate {A = List A} n [])) [])

  -- The item of a key is in the bucket of the key.
  bucket-same :
      (n : ℕ) (item : A) (key : Bytes)
      → is_item ops key item ≡ true
      → (hash_from_item ops item % n == ops.hash_key key % n) ≡ true
  bucket-same n item key e =
      (==_iff (hash_from_item ops item % n) (ops.hash_key key % n)).1
        (ap (λ x. x % n) (k.hashed item ∙ ap (ops.hash_key) ((k.same key item).0 e)))

  find-put :
      (b : Bool) (key : Bytes) (item : A) (items others : List A)
      → (is_item ops key item ≡ true → b ≡ true)
      → (b ≡ true → items ≡ others)
      → find_item ops key (if b then item ∷ items else others)
        ≡ (if is_item ops key item then some item else find_item ops key others)
  unfolding find_item
  find-put true key item items others _ same = rw (same refl) refl
  find-put false key item items others always _ = elim (Bool-cases (is_item ops key item)) [
    | inl e ↦ absurd (false-true (always e))
    | inr e ↦ rw (e) refl
  ]

  -- In a table with buckets, whose comparisons tell equal keys and whose items hash as their keys
  -- do: behind an insertion the item's key finds the item, and every other key what it
  -- found before the insertion. An item of the same key that was there before is hidden.
  pub get-insert :
      (h : Hash A) (item : A) (key : Bytes)
      → 0 < length h.buckets
      → hash_get ops (hash_insert ops h item) key
        ≡ (if is_item ops key item then some item else hash_get ops h key)
  unfolding hash_get hash_insert get_hashed insert_hashed
  get-insert h item key pos =
      let i = hash_from_item ops item % length h.buckets in
      let j = ops.hash_key key % length h.buckets in
      ap
        (λ n. find_item ops key (
          get_or (with_bucket h (hash_from_item ops item) (item ∷ get_or h.buckets i []))
            (ops.hash_key key % n) []))
        (length-set h.buckets i (item ∷ get_or h.buckets i []))
      ∙ ap (find_item ops key) (
          get_or-set h.buckets i j (item ∷ get_or h.buckets i []) []
            (mod-lt (hash_from_item ops item) pos))
      ∙ find-put (i == j) key item (get_or h.buckets i []) (get_or h.buckets j [])
          (bucket-same (length h.buckets) item key)
          (λ e. ap (λ x. get_or h.buckets x []) ((==_iff i j).0 e))

  unlink-insert :
      (h : Hash A) (item : A)
      → 0 < length h.buckets
      → unlink ops (hash_insert ops h item) (ops.get_key item) (ops.hash_key (ops.get_key item)) ≡ h
  unfolding unlink hash_insert insert_hashed delete_item
  unlink-insert h item pos =
      let i = hash_from_item ops item % length h.buckets in
      let items = get_or h.buckets i [] in
      rw
        (
          sym (k.hashed item),
          length-set h.buckets i (item ∷ items),
          get_or-set_self h.buckets i (item ∷ items) [] (mod-lt (hash_from_item ops item) pos),
          (k.same (ops.get_key item) item).1 refl,
        )
        (rw (set-set h.buckets i (item ∷ items) []) (ap (counted h.buckets) (add-sub h.num_items)))

  -- In a table with buckets, whose comparisons tell equal keys and whose items hash as their keys
  -- do, with a comparison of an item with a key: the deletion of the key of the item inserted last
  -- does not fail and gives back the table as it was, with its buckets and its count.
  pub delete-insert :
      (compare : A → Bytes → Ordering) (h : Hash A) (item : A)
      → ops.compare_item ≡ some compare
      → 0 < length h.buckets
      → delete_hashed ops
          (hash_insert ops h item)
          (ops.get_key item)
          (ops.hash_key (ops.get_key item))
        ≡ some h
  unfolding delete_hashed
  delete-insert compare h item has pos = ground (arith, unlink-insert h item pos)
