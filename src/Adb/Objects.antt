-- ===== src/Adb/Objects.antt =====
-- Objects and arrays that are built and written: `adb_wo_*`, `adb_wa_*`, `adb_w_obj` and `adb_w_arr` of
-- apk-tools/src/adb.c. Element 0 of an object that is built is the number of elements allocated.
pub mod Trimmed
pub mod ReadBack
use alpine_linux_mac_os.Base.{
  ◌>>=◌, ℕ, zero, suc, ◌+◌, ◌-◌, ◌*◌, ◌^◌, Bool, true, false, not, ◌&&◌, Option, some, none, List,
  [], ◌∷◌, ◌++◌, Bytes, length, take, drop, get_or, set, replicate, ltb, leb, ◌==◌, if◌then◌else◌,
}
use alpine_linux_mac_os.Adb.ValType
use alpine_linux_mac_os.Adb.{Adb, val, val_type, null, le_bytes}
use alpine_linux_mac_os.Adb.Read.{Obj}
use alpine_linux_mac_os.Adb.Write.{w_data1, with_type, w_blob, w_blob_raw, w_int, w_root}

-- `obj[ADBI_NUM_ENTRIES]`.
abbrev pub allocated : Obj → ℕ
allocated o = get_or o.obj 0 0

-- ADB_IS_ERROR.
abbrev pub is_error : ℕ → Bool
is_error v = val_type v == ValType.error

-- `adb_wo_init`, for a schema with a number of fields.
unfoldable pub wo_init : ℕ → Obj
wo_init num_fields = record {
  obj = set (replicate num_fields 0) 0 num_fields;
  num = 1;
  is_dynamic = false;
}

-- `adb_wo_reset`.
unfoldable pub wo_reset : Obj → Obj
wo_reset o = record o { obj = set (replicate o.num 0 ++ drop o.num o.obj) 0 (allocated o); num = 1 }

-- `adb_wo_val`: none for the errors, which are asserted not to be.
unfoldable pub wo_val : Obj → ℕ → ℕ → Option Obj
wo_val o i v =
    if leb (allocated o) i
    then none
    else if is_error v
    then none
    else some (record o {
      obj = set o.obj i v;
      num = if not (v == null) && leb o.num i then i + 1 else o.num;
    })

-- `adb_wo_int`.
unfoldable pub wo_int : Adb → Obj → ℕ → ℕ → Option (Adb × Obj)
wo_int db o i n = do (db', v) ← w_int db n; o' ← wo_val o i v; some (db', o')

-- `adb_wo_blob`.
unfoldable pub wo_blob : Adb → Obj → ℕ → Bytes → Option (Adb × Obj)
wo_blob db o i b = do (db', v) ← w_blob db b; o' ← wo_val o i v; some (db', o')

-- `adb_wo_blob_raw`.
unfoldable pub wo_blob_raw : Adb → Obj → ℕ → Bytes → Option (Adb × Obj)
wo_blob_raw db o i b = do (db', v) ← w_blob_raw db b; o' ← wo_val o i v; some (db', o')

-- The loop of `__adb_w_obj` that leaves out the last elements while they are not set.
unfoldable pub trim : List ℕ → ℕ → ℕ
trim obj zero = zero
trim obj (suc zero) = suc zero
trim obj (suc (suc n)) =
    let rest = trim obj (suc n) in if get_or obj (suc n) 0 == null then rest else suc (suc n)

-- The bytes of an array of values.
unfoldable pub words_bytes : List ℕ → Bytes
words_bytes [] = []
words_bytes (v ∷ vs) = le_bytes 4 v ++ words_bytes vs

-- The elements of an array behind the first, as a list, and an array with other ones.
abbrev pub elements : Obj → List ℕ
elements o = take (o.num - 1) (drop 1 o.obj)

abbrev pub with_elements : Obj → List ℕ → Obj
with_elements o xs = record o { obj = take 1 o.obj ++ (xs ++ drop (1 + length xs) o.obj) }

-- `adb_wa_sort`, with `qsort_r` and the comparison that the schema of the elements asks for as a
-- parameter.
unfoldable pub wa_sort : (Adb → List ℕ → List ℕ) → Adb → Obj → Obj
wa_sort qsort db o = with_elements o (qsort db (elements o))

-- The loop of `adb_wa_sort_unique` behind an element: those that differ from the one in front.
unfoldable pub unique_from : ℕ → List ℕ → List ℕ
unique_from v [] = []
unique_from v (w ∷ ws) = let rest = unique_from w ws in if w == v then rest else w ∷ rest

unfoldable pub unique : List ℕ → List ℕ
unfolding unique_from
unique [] = []
unique (v ∷ vs) = v ∷ unique_from v vs

-- `adb_wa_sort_unique`: what stands behind the elements that are kept is left as it is.
unfoldable pub wa_sort_unique : (Adb → List ℕ → List ℕ) → Adb → Obj → Obj
unfolding wa_sort unique
wa_sort_unique qsort db o =
    let sorted = wa_sort qsort db o in
    let kept = unique (elements sorted) in
    if ltb (o.num - 1) 2
    then sorted
    else record (with_elements sorted kept) { num = 1 + length kept }

-- The call of `pre_commit`, if the schema has one: a function that changes the object in its place.
abbrev pub PreCommit : Type 0
PreCommit = Option (Adb → Obj → Obj)

unfoldable pub commit : PreCommit → Adb → Obj → Obj
commit none db o = o
commit (some pre_commit) db o = pre_commit db o

-- What `__adb_w_obj` leaves of an object that was committed: `max` elements are allocated.
unfoldable pub cleared : ℕ → Obj → Obj
cleared max o = let o' = wo_reset o in record o' { obj = set o'.obj 0 max }

-- `__adb_w_obj`.
unfoldable pub w_object : PreCommit → Adb → Obj → ℕ → Option (Adb × Obj × ℕ)
unfolding commit
w_object pre db o0 type =
    let max = allocated o0 in
    let o = commit pre db o0 in
    let n = trim o.obj o.num in
    if ltb 1 n
    then w_data1 db (some (words_bytes (take n (set o.obj 0 n)))) 4
      >>= with_type type
      >>= (λ r. some (r.0, cleared max o, r.1))
    else some (db, cleared max o, null)

-- `adb_w_obj`.
unfoldable pub w_obj : PreCommit → Adb → Obj → Option (Adb × Obj × ℕ)
w_obj pre db o = w_object pre db o ValType.object

-- `adb_w_arr`.
unfoldable pub w_arr : PreCommit → Adb → Obj → Option (Adb × Obj × ℕ)
w_arr pre db o = w_object pre db o ValType.array

-- `adb_w_rootobj`.
unfoldable pub w_rootobj : PreCommit → Adb → Obj → Option (Adb × Obj)
w_rootobj pre db o = do (db', o', v) ← w_obj pre db o; db'' ← w_root db' v; some (db'', o')

-- `adb_wo_obj`: an object is a field of another one.
unfoldable pub wo_obj : PreCommit → Adb → Obj → ℕ → Obj → Option (Adb × Obj × Obj)
wo_obj pre db o i new = do
  (db', new', v) ← w_obj pre db new
  o' ← wo_val o i v
  some (db', o', new')

-- `adb_wo_arr`.
unfoldable pub wo_arr : PreCommit → Adb → Obj → ℕ → Obj → Option (Adb × Obj × Obj)
wo_arr pre db o i new = do
  (db', new', v) ← w_arr pre db new
  o' ← wo_val o i v
  some (db', o', new')

-- `adb_wa_append`, where memory can be allocated: a full array is doubled.
unfoldable pub wa_append : Obj → ℕ → Option Obj
wa_append o v =
    let num = allocated o in
    let o' =
      if leb num o.num
      then record o { obj = set (take num o.obj ++ replicate num 0) 0 (num * 2); is_dynamic = true }
      else o in
    if is_error v
    then none
    else if v == null
    then some o
    else some (record o' { obj = set o'.obj o.num v; num = o.num + 1 })

-- `adb_wa_append_obj`.
unfoldable pub wa_append_obj : PreCommit → Adb → Obj → Obj → Option (Adb × Obj × Obj)
wa_append_obj pre db o new = do
  (db', new', v) ← w_obj pre db new
  o' ← wa_append o v
  some (db', o', new')
