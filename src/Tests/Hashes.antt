-- ===== src/Tests/Hashes.antt =====
-- Instances of the theorems on the hash table, for items that are their own keys.
use alpine_linux_mac_os.Base.{◌≡◌, refl, arith, none, some, [], ◌∷◌, Bytes, codes, length, ap}
use alpine_linux_mac_os.Blob.Order.{is_eq, blob_compare}
use alpine_linux_mac_os.Blob.Order.Laws.{blob_compare_iff}
use alpine_linux_mac_os.Hash.{Hash, HashOps, hash_get, hash_insert, hash_from_item, delete_hashed}
use alpine_linux_mac_os.Hash.Laws.{IsKeyed, get-insert, delete-insert}

abbrev names : HashOps Bytes
names = record {
  get_key = λ item. item;
  hash_key = λ key. length key;
  hash_item = none;
  compare = λ a b. blob_compare a b;
  compare_item = some (λ item key. blob_compare item key);
}

names-IsKeyed : IsKeyed names
unfolding hash_from_item
names-IsKeyed = record {
  same = λ key item. (
    λ h. (blob_compare_iff item key).0 (ground arith),
    λ q. ap is_eq ((blob_compare_iff item key).1 q),
  );
  hashed = λ item. refl;
}

abbrev two_names : Hash Bytes
two_names = record { buckets = (codes "a" ∷ []) ∷ (codes "bb" ∷ []) ∷ []; num_items = 2 }

get-insert_example :
    hash_get names (hash_insert names two_names (codes "c")) (codes "bb")
    ≡ hash_get names two_names (codes "bb")
unfolding blob_compare
get-insert_example = get-insert names names-IsKeyed two_names (codes "c") (codes "bb") (omega arith)

delete-insert_example :
    delete_hashed names (hash_insert names two_names (codes "c")) (codes "c") 1 ≡ some two_names
delete-insert_example =
    delete-insert names names-IsKeyed (λ item key. blob_compare item key) two_names (codes "c") refl
      (omega arith)
