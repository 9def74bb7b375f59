-- ===== src/Adb/Write.antt =====
-- `adb_w_*` of apk-tools/src/adb.c: data is added behind what a database holds; data that is there
-- already is found by its hash and shared.
pub mod Memory
pub mod Raw
pub mod Shared
pub mod Values
pub mod Numbers
use alpine_linux_mac_os.Base.{
  ◌>>=◌, ℕ, zero, suc, ◌+◌, ◌-◌, ◌*◌, ◌/◌, ◌%◌, ◌^◌, Bool, true, false, not, ◌&&◌, Option, some,
  none, List, [], ◌∷◌, ◌++◌, Bytes, length, take, drop, get_or, set, replicate, ltb, leb, ◌==◌,
  if◌then◌else◌,
}
use mathlib.Core.Option
use alpine_linux_mac_os.Blob.Order.{is_eq, memcmp}
use alpine_linux_mac_os.Hash.Murmur.{murmur3_32}
use alpine_linux_mac_os.Adb.ValType
use alpine_linux_mac_os.Adb.{Entry, Adb, val, null, header_size, le_bytes, round_up}

abbrev word : ℕ → ℕ
word n = n % 2 ^ 32

-- The loop that doubles `alloc_len`: where the number wraps around to 0 it has no end.
unfoldable pub grow : ℕ → ℕ → ℕ → Option ℕ
grow zero need alloc = none
grow (suc k) need alloc = if leb need alloc then some alloc else grow k need (word (alloc * 2))

-- The memory that `adb_w_raw` allocates. A database that does not grow has no buckets.
unfoldable pub reserve : Adb → ℕ → Option ℕ
reserve db need =
    if leb need db.alloc_len
    then some db.alloc_len
    else if length db.bucket == 0
    then none
    else grow 33 need (if db.alloc_len == 0 then 8192 else db.alloc_len)

-- `iovec_len`.
unfoldable pub iovec_len : List Bytes → ℕ
iovec_len [] = 0
iovec_len (b ∷ vec) = length b + iovec_len vec

-- The bytes of a vector, one part behind the other.
unfoldable pub iovec_bytes : List Bytes → Bytes
iovec_bytes [] = []
iovec_bytes (b ∷ vec) = b ++ iovec_bytes vec

-- `adb_w_raw`: zeros up to the alignment, and the parts.
unfoldable pub w_raw : Adb → List Bytes → ℕ → ℕ → Option (Adb × ℕ)
w_raw db vec len alignment = do
  let padded = db.adb ++ replicate (round_up (length db.adb) alignment - length db.adb) 0
  alloc ← reserve db (length padded + len)
  some (record db { adb = padded ++ iovec_bytes vec; alloc_len = alloc }, length padded)

-- `iovec_hash` without the length.
unfoldable pub iovec_hash : List Bytes → ℕ → ℕ
iovec_hash [] hash = hash
iovec_hash (b ∷ vec) hash = iovec_hash vec (murmur3_32 b hash)

-- `iovec_memcmp`: whether it returns 0.
unfoldable pub iovec_same : List Bytes → Bytes → Bool
iovec_same [] base = true
iovec_same (b ∷ vec) base =
    is_eq (memcmp (length b) base b) && iovec_same vec (drop (length b) base)

-- How the search in a chain ends: at an entry to share, at one to overwrite, or at the end.
pub data Search : Type 0 where
  hit slot : ℕ → Search
  full : Search

-- The loops of `adb_w_data` over the entries of a chain, the first of which has the index i.
unfoldable pub find : Bytes → List Bytes → ℕ → ℕ → ℕ → List Entry → ℕ → Search
find adb vec hash len alignment [] i = full
find adb vec hash len alignment (e ∷ es) i =
    let rest = find adb vec hash len alignment es (suc i) in
    if e.len == 0
    then slot i
    else if e.hash == hash && (e.len == len && iovec_same vec (drop e.offs adb))
    then if e.offs % alignment == 0 then hit e.offs else slot i
    else rest

-- The entries of a bucket that `calloc` returns.
abbrev new_bucket : List Entry
new_bucket = replicate 40 (record { hash = 0; offs = 0; len = 0 })

-- The code behind the label `add`: the entry i of a chain is written.
unfoldable pub add_data : Adb → List Bytes → ℕ → ℕ → ℕ → ℕ → List Entry → ℕ → Option (Adb × ℕ)
add_data db vec hash len alignment bucketno chain i = do
  (db', offs) ← w_raw db vec len alignment
  let entry : Entry = record { hash = hash; offs = word offs; len = word len }
  some (record db' { bucket = set db'.bucket bucketno (set chain i entry) }, word offs)

-- `adb_w_data`.
unfoldable pub w_data : Adb → List Bytes → ℕ → Option (Adb × ℕ)
w_data db vec alignment =
    let len = iovec_len vec in
    let hash = iovec_hash vec 5381 in
    let bucketno = hash % length db.bucket in
    let chain = get_or db.bucket bucketno [] in
    if not (db.no_cache == 0)
    then w_raw db vec len alignment
    else elim (find db.adb vec hash len alignment chain 0) [
      | hit offs ↦ some (db, offs)
      | slot i ↦ add_data db vec hash len alignment bucketno chain i
      | full ↦ add_data db vec hash len alignment bucketno (chain ++ new_bucket) (length chain)
    ]

-- `adb_w_data1`: no data for a NULL pointer.
unfoldable pub w_data1 : Adb → Option Bytes → ℕ → Option (Adb × ℕ)
w_data1 db none alignment = some (db, null)
w_data1 db (some b) alignment = w_data db (b ∷ []) alignment

-- ADB_VAL of a type and the offset that a write returned.
abbrev pub with_type : ℕ → Adb × ℕ → Option (Adb × ℕ)
with_type type (db, offs) = some (db, val type offs)

-- `adb_w_blob_vec`.
unfoldable pub w_blob_vec : Adb → List Bytes → Option (Adb × ℕ)
w_blob_vec db vec =
    let sz = iovec_len vec in
    if ltb 4 (length vec)
    then none
    else if ltb 0xffff sz
    then w_data db (le_bytes 4 sz ∷ vec) 4 >>= with_type ValType.blob_32
    else if ltb 0xff sz
    then w_data db (le_bytes 2 sz ∷ vec) 2 >>= with_type ValType.blob_16
    else if ltb 0 sz
    then w_data db (le_bytes 1 sz ∷ vec) 1 >>= with_type ValType.blob_8
    else some (db, null)

-- `adb_w_blob`.
unfoldable pub w_blob : Adb → Bytes → Option (Adb × ℕ)
w_blob db b = w_blob_vec db (b ∷ [])

-- `adb_w_blob_raw`: `no_cache` is a `uint8_t`.
unfoldable pub w_blob_raw : Adb → Bytes → Option (Adb × ℕ)
w_blob_raw db b = do
  (db', v) ← w_blob (record db { no_cache = (db.no_cache + 1) % 2 ^ 8 }) b
  some (record db' { no_cache = (db'.no_cache + (2 ^ 8 - 1)) % 2 ^ 8 }, v)

-- `adb_w_int`.
unfoldable pub w_int : Adb → ℕ → Option (Adb × ℕ)
w_int db n =
    if leb 0x100000000 n
    then w_data1 db (some (le_bytes 8 n)) 4 >>= with_type ValType.int_64
    else if leb 0x10000000 n
    then w_data1 db (some (le_bytes 4 n)) 4 >>= with_type ValType.int_32
    else some (db, val ValType.int n)

-- `adb_w_root`.
unfoldable pub w_root : Adb → ℕ → Option Adb
w_root db root =
    if ltb (length db.adb) header_size
    then none
    else some (record db { adb = take 4 db.adb ++ (le_bytes 4 root ++ drop header_size db.adb) })

-- `adb_w_init_dynamic`, with a number of buckets.
unfoldable pub w_init_dynamic : ℕ → Option Adb
w_init_dynamic num_buckets =
    let db : Adb = record {
      adb = [];
      alloc_len = 0;
      no_cache = if num_buckets == 0 then 1 else 0;
      bucket = replicate num_buckets [];
    } in
    Option.map (λ r. r.0) (w_raw db (replicate header_size 0 ∷ []) header_size header_size)

-- `adb_w_init_static`, with a buffer of that size.
unfoldable pub w_init_static : ℕ → Adb
w_init_static bufsz = record { adb = []; alloc_len = bufsz; no_cache = 1; bucket = [] }

-- `adb_reset` of a database that has a header: that is kept.
unfoldable pub adb_reset : Adb → Adb
adb_reset db = record db { adb = take header_size db.adb; bucket = replicate (length db.bucket) [] }
