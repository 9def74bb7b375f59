-- ===== src/Version/Compare.antt =====
-- `token_cmp`, `apk_version_compare_fuzzy`, `apk_version_compare` and `apk_version_match`.
use alpine_linux_mac_os.Base.{
  ℕ, zero, suc, ◌+◌, compare, Ordering, bit_and, Bool, false, not, ◌&&◌, ◌||◌, Option, none, some,
  Bytes, length, get_or, ltb, ◌==◌, if◌then◌else◌,
}
use mathlib.Core.Option
use alpine_linux_mac_os.Blob.{Blob}
use alpine_linux_mac_os.Blob.Order.{blob_sort}
use alpine_linux_mac_os.Version.{
  part_value, initial_digit, digit, letter, suffix, suffix_no, revision_no, end, suffix_none,
  TokenState, token_first, token_next,
}
use alpine_linux_mac_os.Version.Operators.{
  version_unknown, version_equal, version_less, version_greater, version_fuzzy, version_conflict,
  depmask_any,
}

-- The result for the sign of a comparison.
abbrev pub result_of : Ordering → ℕ
result_of Ordering.lt = version_less
result_of Ordering.eq = version_equal
result_of Ordering.gt = version_greater

abbrev pub first_byte : Bytes → ℕ
first_byte b = get_or b 0 0

-- `token_cmp`, for two states with the same token.
unfoldable pub token_cmp : TokenState → TokenState → ℕ
unfolding blob_sort
token_cmp ta tb = elim (ta.token) [
  | digit ↦
      if first_byte ta.value == b'0' || first_byte tb.value == b'0'
      then result_of (blob_sort ta.value tb.value)
      else result_of (compare ta.number tb.number)
  | initial_digit ↦ result_of (compare ta.number tb.number)
  | suffix_no ↦ result_of (compare ta.number tb.number)
  | revision_no ↦ result_of (compare ta.number tb.number)
  | letter ↦ result_of (compare (first_byte ta.value) (first_byte tb.value))
  | suffix ↦ result_of (compare ta.suffix tb.suffix)
  | _ ↦ result_of (blob_sort ta.value tb.value)
]

abbrev pub is_prerelease : TokenState → Bool
is_prerelease t = part_value t.token == part_value suffix && ltb t.suffix suffix_none

-- What follows the loop of `apk_version_compare_fuzzy`.
unfoldable pub compare_ends : Bool → TokenState → TokenState → ℕ
compare_ends fuzzy ta tb =
    if part_value ta.token == part_value tb.token
    then version_equal
    else if part_value tb.token == part_value end && fuzzy
    then version_equal
    else if is_prerelease ta
    then version_less
    else if is_prerelease tb
    then version_greater
    else if ltb (part_value tb.token) (part_value ta.token)
    then version_less
    else if ltb (part_value ta.token) (part_value tb.token)
    then version_greater
    else version_equal

-- The loop, by rounds: each state comes with the blob behind its token.
unfoldable pub compare_loop : ℕ → Bool → TokenState × Bytes → TokenState × Bytes → Option ℕ
unfolding token_cmp compare_ends token_next
compare_loop zero fuzzy (ta, a) (tb, b) = none
compare_loop (suc fuel) fuzzy (ta, a) (tb, b) =
    let more = compare_loop fuel fuzzy (token_next ta a) (token_next tb b) in
    if part_value ta.token == part_value tb.token && ltb (part_value ta.token) (part_value end)
    then (if token_cmp ta tb == version_equal then more else some (token_cmp ta tb))
    else some (compare_ends fuzzy ta tb)

-- `apk_version_compare_fuzzy`, with two rounds more than the first version has bytes. It would be
-- APK_VERSION_UNKNOWN, which the source never returns, if the rounds ran out.
unfoldable pub version_compare_fuzzy : Blob → Blob → Bool → ℕ
unfolding compare_loop token_first
version_compare_fuzzy none none fuzzy = version_equal
version_compare_fuzzy none (some b) fuzzy = depmask_any
version_compare_fuzzy (some a) none fuzzy = depmask_any
version_compare_fuzzy (some a) (some b) fuzzy =
    Option.get_or (compare_loop (length a + 2) fuzzy (token_first a) (token_first b))
      version_unknown

-- `apk_version_compare`.
unfoldable pub version_compare : Blob → Blob → ℕ
unfolding version_compare_fuzzy
version_compare a b = version_compare_fuzzy a b false

-- `apk_version_match`.
unfoldable pub version_match : Blob → ℕ → Blob → Bool
unfolding version_compare_fuzzy
version_match a op b =
    let fuzzy = not (bit_and op version_fuzzy == 0) in
    let ok =
      bit_and op depmask_any == depmask_any
      || not (bit_and (version_compare_fuzzy a b fuzzy) op == 0) in
    if bit_and op version_conflict == 0 then ok else not ok
