-- ===== src/Repositories/Variables.antt =====
-- `apk_variable_set` and `apk_variable_subst` of apk-tools/src/repoparser.c. The value that the code
-- writes through the item's pointer replaces the item in its list.
use alpine_linux_mac_os.Base.{
  ℕ, ◌%◌, ◌^◌, bit_and, not, Option, some, none, [], ◌∷◌, List, Bytes, length, take, ◌==◌,
  if◌then◌else◌,
}
use alpine_linux_mac_os.Blob.{Sink}
use alpine_linux_mac_os.Blob.Order.{blob_compare}
use alpine_linux_mac_os.Blob.Push.{push_blob}
use alpine_linux_mac_os.Blob.Subst.{Result, ok, err, repo_variable}
use alpine_linux_mac_os.Hash.{
  Hash, HashOps, is_item, get_hashed, insert_hashed, hash_get, bucket_at, with_bucket,
}
use alpine_linux_mac_os.Hash.Murmur.{blob_hash}

-- `struct apk_variable`.
pub record Variable : Type 0 where
  pub key : Bytes
  pub value : Bytes
  pub flags : ℕ

abbrev pub variable_ops : HashOps Variable
variable_ops = record {
  get_key = λ var. var.key;
  hash_key = λ key. blob_hash key;
  hash_item = none;
  compare = λ key itemkey. blob_compare key itemkey;
  compare_item = none;
}

abbrev pub varf_overwrite : ℕ
varf_overwrite = 1

abbrev pub varf_readonly : ℕ
varf_readonly = 2

-- The list with another item in place of the first of the key.
unfoldable pub replace_item : Bytes → Variable → List Variable → List Variable
replace_item key var [] = []
replace_item key var (v ∷ vars) =
    let later = replace_item key var vars in
    if is_item variable_ops key v then var ∷ vars else v ∷ later

-- `apk_variable_set` behind its lookup: `keylen` has 8 bits.
unfoldable pub set_found : Hash Variable → Bytes → Bytes → ℕ → Option Variable → Hash Variable
unfolding insert_hashed replace_item
set_found vars key value flags none =
    insert_hashed variable_ops vars
      (record { key = take (length key % 2 ^ 8) key; value = value; flags = flags }) (blob_hash key)
set_found vars key value flags (some v) =
    let var : Variable = record { key = v.key; value = value; flags = flags } in
    if bit_and flags varf_overwrite == 0
    then vars
    else if not (bit_and v.flags varf_readonly == 0)
    then vars
    else record {
      buckets =
          with_bucket vars (blob_hash key) (replace_item key var (bucket_at vars (blob_hash key)));
      num_items = vars.num_items;
    }

-- `apk_variable_set`.
unfoldable pub variable_set : Hash Variable → Bytes → Bytes → ℕ → Hash Variable
unfolding get_hashed set_found
variable_set vars key value flags =
    set_found vars key value flags (get_hashed variable_ops vars key (blob_hash key))

-- `apk_variable_subst`.
unfoldable pub variable_subst : Hash Variable → Bytes → Sink → Result Sink
unfolding hash_get push_blob
variable_subst vars key to = elim (hash_get variable_ops vars key) [
  | none ↦ err repo_variable
  | some var ↦ ok (push_blob to var.value)
]
