-- ===== src/Adb/Read.antt =====
-- `adb_r_*` and the reading `adb_ro_*` of apk-tools/src/adb.c: values read from the data.
use alpine_linux_mac_os.Base.{
  ℕ, zero, suc, ◌*◌, Bool, false, Option, some, none, List, [], ◌∷◌, Bytes, length, take, drop,
  get_elem?, ltb, leb, ◌==◌, ◌||◌, if◌then◌else◌,
}
use mathlib.Core.Option
use alpine_linux_mac_os.Adb.ValType
use alpine_linux_mac_os.Adb.{null, val_type, val_value, le_value, header_size, r_deref}

-- `adb_r_root`: the field of `struct adb_hdr` behind its first four bytes.
unfoldable pub r_root : Bytes → ℕ
r_root adb = if ltb (length adb) header_size then null else le_value (take 4 (drop 4 adb))

-- A number that `adb_r_deref` finds, 0 for NULL.
unfoldable pub number : Option Bytes → ℕ
number none = 0
number (some b) = le_value b

-- `adb_r_int`.
unfoldable pub r_int : Bytes → ℕ → ℕ
r_int adb v =
    if val_type v == ValType.int
    then val_value v
    else if val_type v == ValType.int_32
    then number (r_deref adb v 0 4)
    else if val_type v == ValType.int_64
    then number (r_deref adb v 0 8)
    else 0

-- A blob that is read: what its pointer points at, none for NULL, and its length.
pub record BlobRef : Type 0 where
  pub ptr : Option Bytes
  pub len : ℕ

-- APK_BLOB_NULL.
abbrev pub blob_null : BlobRef
blob_null = record { ptr = none; len = 0 }

-- A blob behind k bytes that hold its length.
unfoldable pub prefixed : Bytes → ℕ → ℕ → BlobRef
prefixed adb v k = elim (r_deref adb v 0 k) [
  | none ↦ blob_null
  | some b ↦ record { ptr = r_deref adb v k (le_value b); len = le_value b }
]

-- `adb_r_blob`.
unfoldable pub r_blob : Bytes → ℕ → BlobRef
r_blob adb v =
    if val_type v == ValType.blob_8
    then prefixed adb v 1
    else if val_type v == ValType.blob_16
    then prefixed adb v 2
    else if val_type v == ValType.blob_32
    then prefixed adb v 4
    else blob_null

-- The fields of `struct adb_obj`: `obj` has no elements where the pointer is NULL. While an object is
-- written, its element 0 is the number of elements allocated.
pub record Obj : Type 0 where
  pub obj : List ℕ
  pub num : ℕ
  pub is_dynamic : Bool

-- An array of n values in memory.
unfoldable pub words : ℕ → Bytes → List ℕ
words zero b = []
words (suc n) b = le_value (take 4 b) ∷ words n (drop 4 b)

abbrev pub no_obj : Obj
no_obj = record { obj = []; num = 1; is_dynamic = false }

unfoldable pub obj_at : Bytes → ℕ → ℕ → Obj
obj_at adb v num = if num == 0 then no_obj else elim (r_deref adb v 0 (4 * num)) [
  | none ↦ no_obj
  | some b ↦ record { obj = words num b; num = num; is_dynamic = false }
]

-- `adb_r_obj`.
unfoldable pub r_obj : Bytes → ℕ → Obj
r_obj adb v =
    if val_type v == ValType.array || val_type v == ValType.object
    then elim (r_deref adb v 0 4) [ none ↦ no_obj | some b ↦ obj_at adb v (le_value b) ]
    else no_obj

-- `adb_r_rootobj`.
unfoldable pub r_rootobj : Bytes → Obj
r_rootobj adb = r_obj adb (r_root adb)

-- `adb_ro_val`, none for an access outside of the memory.
unfoldable pub ro_val : Obj → ℕ → Option ℕ
ro_val o i = if leb o.num i then some null else get_elem? o.obj i

-- `adb_ro_int`.
unfoldable pub ro_int : Bytes → Obj → ℕ → Option ℕ
ro_int adb o i = Option.map (r_int adb) (ro_val o i)

-- `adb_ro_blob`.
unfoldable pub ro_blob : Bytes → Obj → ℕ → Option BlobRef
ro_blob adb o i = Option.map (r_blob adb) (ro_val o i)

-- `adb_ro_obj` without the schema.
unfoldable pub ro_obj : Bytes → Obj → ℕ → Option Obj
ro_obj adb o i = Option.map (r_obj adb) (ro_val o i)
