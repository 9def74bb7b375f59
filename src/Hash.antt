-- ===== src/Hash.antt =====
-- The hash table of apk-tools/src/hash.c and apk_hash.h, with the list heads of apk_defines.h. The
-- operations of the table are a record of functions, as in the source; an item's node is the item.
pub mod Laws
pub mod Murmur
pub mod Atoms
use alpine_linux_mac_os.Base.{
  ℕ, ◌+◌, ◌-◌, ◌%◌, Ordering, Bool, true, false, Option, some, none, [], ◌∷◌, List, Bytes, length,
  get_or, set, replicate, ◌==◌, if◌then◌else◌,
}
use alpine_linux_mac_os.Blob.Order.{is_eq}

-- `struct apk_hash_ops`; what the offsets of nodes serve needs no field.
pub record HashOps (A : Type 0) : Type 0 where
  pub get_key : A → Bytes
  pub hash_key : Bytes → ℕ
  pub hash_item : Option (A → ℕ)
  pub compare : Bytes → Bytes → Ordering
  pub compare_item : Option (A → Bytes → Ordering)

-- `struct apk_hash`, without its operations.
pub record Hash (A : Type 0) : Type 0 where
  pub buckets : List (List A)
  pub num_items : ℕ

module _ {A : Type 0} where
  -- `apk_hash_init`.
  unfoldable pub hash_init : ℕ → Hash A
  hash_init num_buckets = record { buckets = replicate num_buckets []; num_items = 0 }

  -- The bucket of a hash, and a table with that bucket replaced.
  abbrev pub bucket_at : Hash A → ℕ → List A
  bucket_at h hash = get_or h.buckets (hash % length h.buckets) []

  abbrev pub with_bucket : Hash A → ℕ → List A → List (List A)
  with_bucket h hash items = set h.buckets (hash % length h.buckets) items

module _ {A : Type 0} (ops : HashOps A) where
  -- The test of both loops in `apk_hash_get_hashed`.
  abbrev pub is_item : Bytes → A → Bool
  is_item key item = elim (ops.compare_item) [
    | some compare ↦ is_eq (compare item key)
    | none ↦ is_eq (ops.compare key (ops.get_key item))
  ]

  unfoldable pub find_item : Bytes → List A → Option A
  find_item key [] = none
  find_item key (item ∷ items) = if is_item key item then some item else find_item key items

  -- `apk_hash_get_hashed`.
  unfoldable pub get_hashed : Hash A → Bytes → ℕ → Option A
  unfolding find_item
  get_hashed h key hash = find_item key (bucket_at h hash)

  -- `apk_hash_insert_hashed`: the item becomes the head of its list.
  unfoldable pub insert_hashed : Hash A → A → ℕ → Hash A
  insert_hashed h item hash = record {
    buckets = with_bucket h hash (item ∷ bucket_at h hash);
    num_items = h.num_items + 1;
  }

  -- The list without the first item of the key, and whether there was one.
  unfoldable pub delete_item : Bytes → List A → List A × Bool
  delete_item key [] = ([], false)
  delete_item key (item ∷ items) =
      let later = delete_item key items in
      if is_item key item then (items, true) else (item ∷ later.0, later.1)

  -- The unlinking in `apk_hash_delete_hashed`, of the first item of the key if there is one.
  unfoldable pub unlink : Hash A → Bytes → ℕ → Hash A
  unfolding delete_item
  unlink h key hash =
      let (items, found) = delete_item key (bucket_at h hash) in
      if found
      then record { buckets = with_bucket h hash items; num_items = h.num_items - 1 }
      else h

  -- `apk_hash_delete_hashed`; `none` is the failed assertion. The callback that frees the item does
  -- not see the table.
  unfoldable pub delete_hashed : Hash A → Bytes → ℕ → Option (Hash A)
  unfolding unlink
  delete_hashed h key hash = elim (ops.compare_item) [
    | none ↦ none
    | some _ ↦ some (unlink h key hash)
  ]

  -- `apk_hash_from_item`.
  unfoldable pub hash_from_item : A → ℕ
  hash_from_item item = elim (ops.hash_item) [
    | some hash ↦ hash item
    | none ↦ ops.hash_key (ops.get_key item)
  ]

  -- `apk_hash_get` and `apk_hash_insert`.
  unfoldable pub hash_get : Hash A → Bytes → Option A
  unfolding get_hashed
  hash_get h key = get_hashed h key (ops.hash_key key)

  unfoldable pub hash_insert : Hash A → A → Hash A
  unfolding insert_hashed hash_from_item
  hash_insert h item = insert_hashed h item (hash_from_item item)

module _ {A S : Type 0} (visit : A → S → S × ℕ) where
  -- The enumeration of one list: it stops at the first result that is not 0.
  each_item : List A → S → S × ℕ
  each_item [] s = (s, 0)
  each_item (item ∷ items) s =
      let (s', r) = visit item s in
      let later = each_item items s' in if r == 0 then later else (s', r)

  each_bucket : List (List A) → S → S × ℕ
  unfolding each_item
  each_bucket [] s = (s, 0)
  each_bucket (items ∷ buckets) s =
      let (s', r) = each_item items s in
      let later = each_bucket buckets s' in if r == 0 then later else (s', r)

  -- `apk_hash_foreach`, for an enumerator with a state.
  unfoldable pub hash_foreach : Hash A → S → S × ℕ
  unfolding each_bucket
  hash_foreach h s = each_bucket h.buckets s
