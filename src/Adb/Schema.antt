-- ===== src/Adb/Schema.antt =====
-- The scalars of apk-tools/src/apk_adb.c: texts that are turned into values of a database, the order of
-- values, and the dependencies of a package as objects.
pub mod ReadBack
use alpine_linux_mac_os.Base.{
  ◌>>=◌, ℕ, zero, suc, ◌+◌, ◌-◌, ◌*◌, ◌/◌, ◌%◌, ◌^◌, bit_and, Bool, true, false, not, ◌&&◌, ◌||◌,
  Option, some, none, List, [], ◌∷◌, Bytes, codes, length, get_or, ltb, leb, ◌==◌, if◌then◌else◌,
  Ordering, compare,
}
use mathlib.Core.Option
use alpine_linux_mac_os.Ctype.{
  CharClass, package_name, dependency_name, dependency_separator, blob_spn, blob_cspn,
}
use alpine_linux_mac_os.Blob.{Blob}
use alpine_linux_mac_os.Blob.Order.{blob_sort, blob_compare, is_eq}
use alpine_linux_mac_os.Blob.Search.{blob_split}
use alpine_linux_mac_os.Blob.Pull.{pull_uint, Pulled, pulled, failed, overrun, pull_hexdump}
use alpine_linux_mac_os.Version.{version_validate}
use alpine_linux_mac_os.Version.Operators.{depmask_any, depmask_checksum, version_equal}
use alpine_linux_mac_os.Dependency.Syntax.{Parsed, dep_parse}
use alpine_linux_mac_os.Adb.{Adb}
use alpine_linux_mac_os.Adb.Read.{Obj, r_int}
use alpine_linux_mac_os.Adb.Write.{w_blob, w_int}
use alpine_linux_mac_os.Adb.Objects.{wo_reset, wo_blob, wo_int, wa_append_obj}

-- The errors that a text is refused with.
pub data Refusal : Type 0 where
  pkgname_format pkgversion_format invalid_number too_long : Refusal

-- What a `fromstring` returns: an error value, or a value and the database that has it. Where the
-- database cannot be written, or a text is read behind its end, there is no result.
pub data Converted : Type 0 where
  refused : Refusal → Converted
  converted : Adb → ℕ → Converted
  stopped : Converted

abbrev pub written : Option (Adb × ℕ) → Converted
written none = stopped
written (some (db, v)) = converted db v

-- `string_fromstring`.
unfoldable pub string_fromstring : Adb → Bytes → Converted
string_fromstring db b = written (w_blob db b)

-- `name_fromstring`; `isalnum` is that of the C library.
unfoldable pub name_fromstring : (ℕ → Bool) → Adb → Bytes → Converted
name_fromstring isalnum db b =
    if (length b == 0) || not (isalnum (get_or b 0 0))
    then refused pkgname_format
    else if (blob_spn b package_name).ret
    then refused pkgname_format
    else written (w_blob db b)

-- `version_fromstring`.
unfoldable pub version_fromstring : Adb → Bytes → Converted
version_fromstring db b =
    if not (version_validate b) then refused pkgversion_format else written (w_blob db b)

-- `hexblob_fromstring`, with its buffer of 256 bytes.
unfoldable pub hexblob_fromstring : Adb → Bytes → Converted
hexblob_fromstring db b =
    if not (length b % 2 == 0)
    then refused invalid_number
    else if ltb 256 (length b / 2)
    then refused too_long
    else elim (pull_hexdump (some b) (length b / 2)) [
      | pulled rest bytes ↦ written (w_blob db bytes)
      | failed bytes ↦ refused invalid_number
      | overrun ↦ stopped
    ]

-- `int_fromstring` and `oct_fromstring`, by the radix.
unfoldable pub number_fromstring : ℕ → Adb → Bytes → Converted
number_fromstring radix db b =
    let (n, rest) = pull_uint b radix in
    if not (length rest == 0) then refused invalid_number else written (w_int db n)

-- The loop of `apk_get_human_size_unit`: the unit is an `int`, here its lower 32 bits, of which the
-- value of a TiB has none.
unfoldable pub size_unit : List Bytes → ℕ → Bytes → ℕ
size_unit [] s b = 1
size_unit (unit ∷ units) s b =
    let rest = size_unit units (s * 1024 % 2 ^ 32) b in
    if is_eq (blob_compare b unit) then s else rest

abbrev size_units : List Bytes
size_units = codes "B" ∷ codes "KiB" ∷ codes "MiB" ∷ codes "GiB" ∷ codes "TiB" ∷ []

-- `hsize_fromstring`.
unfoldable pub hsize_fromstring : Adb → Bytes → Converted
hsize_fromstring db b = elim (blob_split b (codes " ")) [
  | none ↦ number_fromstring 10 db b
  | some (l, r) ↦ written (w_int db ((pull_uint l 10).0 * size_unit size_units 1 r % 2 ^ 64))
]

-- `int_compare`.
unfoldable pub int_compare : Bytes → ℕ → Bytes → ℕ → Ordering
int_compare adb1 v1 adb2 v2 = compare (r_int adb1 v1) (r_int adb2 v2)

-- ADBI_DEP_NAME, ADBI_DEP_VERSION and ADBI_DEP_MATCH.
abbrev dep_name : ℕ
dep_name = 1

abbrev dep_version : ℕ
dep_version = 2

abbrev dep_match : ℕ
dep_match = 3

-- `dependency_fromstring`: whether it returns 0, the database and the object.
unfoldable pub dependency_fromstring : Adb → Obj → Bytes → Option (Bool × Adb × Obj)
dependency_fromstring db obj b = elim (dep_parse (some b)) [
  | none ↦ some (false, db, obj)
  | some p ↦
      let version = Option.get_or p.version [] in
      if not (bit_and p.op depmask_checksum == depmask_checksum) && not (version_validate version)
      then some (false, db, obj)
      else if (blob_spn p.name dependency_name).ret
      then some (false, db, obj)
      else wo_blob db obj dep_name p.name >>= (λ r.
        if p.op == depmask_any
        then some (true, r.0, r.1)
        else wo_blob r.0 r.1 dep_version version >>= (λ s.
          if p.op == version_equal
          then some (true, s.0, s.1)
          else wo_int s.0 s.1 dep_match p.op >>= (λ t. some (true, t.0, t.1))))
]

-- `apk_dep_split`: the next dependency and what is behind it, if there is one.
unfoldable pub dep_split : Bytes → Option (Bytes × Bytes)
dep_split b =
    let rest = (blob_spn b dependency_separator).right in
    let word = blob_cspn rest dependency_separator in
    if length b == 0
    then none
    else if length word.left == 0
    then none
    else some (word.left, word.right)

-- The loop of `dependencies_fromstring`, where each dependency is shorter than what is left.
unfoldable pub dependencies_fromstring : ℕ → Adb → Obj → Obj → Bytes → Option (Bool × Adb × Obj)
dependencies_fromstring zero db obj dep b = none
dependencies_fromstring (suc k) db obj dep b = elim (dep_split b) [
  | none ↦ some (true, db, obj)
  | some (bdep, rest) ↦ dependency_fromstring db (wo_reset dep) bdep >>= (λ r.
      if not r.0
      then some (false, r.1, obj)
      else wa_append_obj none r.1 obj r.2 >>= (λ s. dependencies_fromstring k s.0 s.1 s.2 rest))
]
