-- ===== src/Tests/Databases.antt =====
-- Values, blobs and objects that are written to a database, and a signed file.
use alpine_linux_mac_os.Base.{
  ℕ, codes, ◌*◌, ◌^◌, ◌≤◌, false, none, some, List, [], ◌∷◌, ◌++◌, Bytes, length, replicate, ◌≡◌,
  refl, sym, subst, leb, if◌then◌else◌, inl, inr, arith,
}
use alpine_linux_mac_os.Blob.Order.{memcmp}
use alpine_linux_mac_os.Hash.Murmur.{murmur3_32}
use alpine_linux_mac_os.Adb.{Adb, Entry, le_bytes, le_value, r_deref}
use alpine_linux_mac_os.Adb.Read.{Obj, prefixed, r_int, r_blob, r_obj, ro_val}
use alpine_linux_mac_os.Adb.Write.{
  iovec_len, iovec_bytes, iovec_hash, iovec_same, find, add_data, grow, reserve, w_raw, w_data,
  w_data1, w_blob_vec, w_int, w_init_dynamic,
}
use alpine_linux_mac_os.Adb.Write.Raw.{
  Written, WithinMemory, padded, w_raw-WithinMemory, w_raw_total,
}
use alpine_linux_mac_os.Adb.Write.Shared.{Cached, w_data-Written}
use alpine_linux_mac_os.Adb.Write.Values.{Keeps, read_back, r_blob-w_blob_vec}
use alpine_linux_mac_os.Adb.Write.Numbers.{r_int-w_int}
use alpine_linux_mac_os.Blob.Order.{blob_compare}
use alpine_linux_mac_os.Blob.Search.{blob_contains, blob_split}
use alpine_linux_mac_os.Blob.Pull.{uint_loop, pull_uint}
use alpine_linux_mac_os.Adb.Schema.{converted, size_unit, hsize_fromstring}
use alpine_linux_mac_os.Adb.Objects.{
  wo_init, wo_reset, allocated, PreCommit, commit, cleared, wa_sort_unique, trim, words_bytes,
  w_object,
}
use alpine_linux_mac_os.Adb.Objects.ReadBack.{IsObj, r_obj-w_object}

-- A database with its header and one chain.
abbrev small_db : List Entry → Bytes → Adb
small_db chain b = record {
  adb = replicate 8 0 ++ b;
  alloc_len = 8192;
  no_cache = 0;
  bucket = chain ∷ [];
}

abbrev empty_db : Adb
empty_db = small_db [] []

empty_db_init : w_init_dynamic 1 ≡ some empty_db
unfolding w_init_dynamic w_raw reserve grow iovec_bytes
empty_db_init = refl

abbrev cached_entry : ℕ → ℕ → List Entry
cached_entry hash len =
    record { hash = hash; offs = 8; len = len }
    ∷ replicate 39 (record { hash = 0; offs = 0; len = 0 })

abbrev ab : List Bytes
ab = (97 ∷ []) ∷ (98 ∷ []) ∷ []

abbrev ab_db : Adb
ab_db = small_db (cached_entry (iovec_hash ((2 ∷ []) ∷ ab) 5381) 3) (2 ∷ 97 ∷ 98 ∷ [])

ab_written : w_blob_vec empty_db ab ≡ some (ab_db, 0x80000008)
unfolding w_blob_vec w_data find add_data w_raw reserve grow iovec_len iovec_bytes iovec_hash
    le_bytes murmur3_32
ab_written = refl

-- The same bytes are shared.
ab_shared : w_blob_vec ab_db ab ≡ some (ab_db, 0x80000008)
unfolding w_blob_vec w_data find add_data w_raw reserve grow iovec_len iovec_bytes iovec_hash
    iovec_same le_bytes murmur3_32 memcmp
ab_shared = refl

r_blob-w_blob_vec_example : (r_blob ab_db.adb 0x80000008 ≡ read_back ab) × Keeps empty_db ab_db
unfolding iovec_len
r_blob-w_blob_vec_example =
    r_blob-w_blob_vec empty_db ab_db ab 0x80000008 (tt, tt) (omega arith) (omega arith) ab_written

abbrev number : ℕ
number = 0x12345678

abbrev number_db : Adb
number_db =
    small_db (cached_entry (iovec_hash (le_bytes 4 number ∷ []) 5381) 4)
      (0x78 ∷ 0x56 ∷ 0x34 ∷ 0x12 ∷ [])

number_written : w_int empty_db number ≡ some (number_db, 0x20000008)
unfolding w_int w_data1 w_data find add_data w_raw reserve grow iovec_len iovec_bytes iovec_hash
    le_bytes murmur3_32
number_written = refl

r_int-w_int_example : (r_int number_db.adb 0x20000008 ≡ number) × Keeps empty_db number_db
r_int-w_int_example =
    r_int-w_int empty_db number_db number 0x20000008 (omega arith) (tt, tt) (omega arith)
      number_written

number_data : w_data empty_db (le_bytes 4 number ∷ []) 4 ≡ some (number_db, 8)
unfolding w_data find add_data w_raw reserve grow iovec_len iovec_bytes iovec_hash le_bytes
    murmur3_32
number_data = refl

w_data-Written_example :
    Written empty_db.adb number_db.adb 8 4 (iovec_bytes (le_bytes 4 number ∷ [])) × Cached number_db
w_data-Written_example =
    w_data-Written empty_db number_db (le_bytes 4 number ∷ []) 4 8 (inr (inr (inl refl))) (tt, tt)
      (omega arith) number_data

-- An array of 4 elements, three of which are set, two of them to the same value.
abbrev array : Obj
array = record {
  obj = 5 ∷ 0x10000006 ∷ 0x10000005 ∷ 0x10000006 ∷ 0 ∷ [];
  num = 4;
  is_dynamic = false;
}

abbrev sorted_array : Obj
sorted_array = record {
  obj = 5 ∷ 0x10000005 ∷ 0x10000006 ∷ 0x10000006 ∷ 0 ∷ [];
  num = 3;
  is_dynamic = false;
}

-- The array that is left: what stood behind the elements that were kept is still there.
abbrev left_array : Obj
left_array = record { obj = 5 ∷ 0 ∷ 0 ∷ 0x10000006 ∷ 0 ∷ []; num = 1; is_dynamic = false }

-- Sorting by the numbers of the values.
abbrev insert_number : ℕ → List ℕ → List ℕ
insert_number v [] = v ∷ []
insert_number v (w ∷ ws) = let rest = insert_number v ws in if leb v w then v ∷ w ∷ ws else w ∷ rest

abbrev sort_numbers : List ℕ → List ℕ
sort_numbers [] = []
sort_numbers (v ∷ vs) = insert_number v (sort_numbers vs)

abbrev sort_unique : PreCommit
sort_unique = some (wa_sort_unique (λ db vs. sort_numbers vs))

array_committed : commit sort_unique empty_db array ≡ sorted_array
unfolding commit wa_sort_unique
array_committed = refl

abbrev array_bytes : Bytes
array_bytes = 3 ∷ 0 ∷ 0 ∷ 0 ∷ 5 ∷ 0 ∷ 0 ∷ 0x10 ∷ 6 ∷ 0 ∷ 0 ∷ 0x10 ∷ []

abbrev array_db : Adb
array_db = small_db (cached_entry (iovec_hash (array_bytes ∷ []) 5381) 12) array_bytes

array_written :
    w_object sort_unique empty_db array (13 * 2 ^ 28) ≡ some (array_db, left_array, 0xd0000008)
unfolding w_object wa_sort_unique trim words_bytes w_data1 w_data find add_data w_raw reserve grow
    iovec_len iovec_bytes iovec_hash le_bytes murmur3_32 cleared wo_reset
array_written = refl

sorted_array-IsObj : IsObj sorted_array
sorted_array-IsObj = record {
  one = omega arith;
  within = omega arith;
  values = (omega arith, (omega arith, (omega arith, (omega arith, (omega arith, tt)))));
  bounded = omega arith;
}

r_obj-w_object_example :
    ((i : ℕ)
      → 1 ≤ i
      → ro_val (r_obj array_db.adb 0xd0000008) i ≡ ro_val (commit sort_unique empty_db array) i)
    × (left_array ≡ cleared (allocated array) (commit sort_unique empty_db array))
    × Keeps empty_db array_db
r_obj-w_object_example =
    r_obj-w_object sort_unique empty_db array_db array left_array 13 0xd0000008 (inr refl)
      (subst IsObj (sym array_committed) sorted_array-IsObj) (tt, tt) (omega arith) array_written

abbrev full_db : Adb
full_db = record { adb = replicate 8 0; alloc_len = 8; no_cache = 0; bucket = [] ∷ [] }

abbrev grown_db : Adb
grown_db = record full_db { adb = replicate 8 0 ++ (1 ∷ 2 ∷ 3 ∷ []); alloc_len = 16 }

grown_written :
    w_raw full_db ((1 ∷ []) ∷ (2 ∷ 3 ∷ []) ∷ []) (iovec_len ((1 ∷ []) ∷ (2 ∷ 3 ∷ []) ∷ [])) 4
    ≡ some (grown_db, 8)
unfolding w_raw reserve grow iovec_len iovec_bytes
grown_written = refl

w_raw-WithinMemory_example : (length (padded full_db 4) ≤ full_db.alloc_len) × WithinMemory grown_db
w_raw-WithinMemory_example =
    w_raw-WithinMemory full_db grown_db ((1 ∷ []) ∷ (2 ∷ 3 ∷ []) ∷ []) 8 4 (inr (inr (inl refl)))
      (omega arith, refl) grown_written

w_raw_total_example :
    (db' : Adb) × (offs : ℕ) × (w_raw full_db ((1 ∷ []) ∷ (2 ∷ 3 ∷ []) ∷ []) 3 4 ≡ some (db', offs))
w_raw_total_example =
    w_raw_total full_db ((1 ∷ []) ∷ (2 ∷ 3 ∷ []) ∷ []) 3 4 refl
      (inr (omega arith, λ h. omega arith))

-- A database without buckets cannot be begun.
no_buckets : w_init_dynamic 0 ≡ none
unfolding w_init_dynamic w_raw reserve
no_buckets = refl

-- A blob that is cut off has a NULL pointer and a length.
cut_blob : r_blob (5 ∷ 1 ∷ []) 0x80000000 ≡ record { ptr = none; len = 5 }
unfolding r_blob prefixed r_deref le_value
cut_blob = refl

-- A size in TiB is taken for nothing: 1024 ^ 4 has no bits below 2 ^ 32.
size_in_tib : hsize_fromstring empty_db (codes "1 TiB") ≡ converted empty_db 0x10000000
unfolding hsize_fromstring blob_split blob_contains pull_uint uint_loop size_unit blob_compare
    memcmp w_int
size_in_tib = refl

-- A dependency with a version is an object of three fields.
abbrev dependency_object : Obj
dependency_object = record { obj = 4 ∷ 0 ∷ 0 ∷ 0 ∷ []; num = 1; is_dynamic = false }

dependency_init : wo_init 4 ≡ dependency_object
unfolding wo_init
dependency_init = refl
