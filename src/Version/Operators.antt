-- ===== src/Version/Operators.antt =====
-- The operators of a dependency: their bits, their text and the reading of a text.
use alpine_linux_mac_os.Base.{
  ℕ, bit_and, bit_or, Bool, true, ◌||◌, [], ◌∷◌, Bytes, codes, ◌==◌, if◌then◌else◌, ◌≡◌, refl,
  arith, ◌<◌, all_below, all_below_sound,
}

abbrev pub version_unknown : ℕ
version_unknown = 0

abbrev pub version_equal : ℕ
version_equal = 1

abbrev pub version_less : ℕ
version_less = 2

abbrev pub version_greater : ℕ
version_greater = 4

abbrev pub version_fuzzy : ℕ
version_fuzzy = 8

abbrev pub version_conflict : ℕ
version_conflict = 16

abbrev pub depmask_any : ℕ
depmask_any = bit_or version_equal (bit_or version_less version_greater)

abbrev pub depmask_checksum : ℕ
depmask_checksum = bit_or version_less version_greater

-- `op & ~APK_VERSION_CONFLICT`, for an op of eight bits as `struct apk_dependency` holds it.
abbrev pub without_conflict : ℕ → ℕ
without_conflict op = bit_and op 0xef

-- The text of an operator without its conflict bit.
op_text : ℕ → Bytes
op_text op =
    if op == version_less
    then codes "<"
    else if op == bit_or version_less version_equal
    then codes "<="
    else if op == bit_or version_less (bit_or version_equal version_fuzzy)
    then codes "<~"
    else if op == bit_or version_equal version_fuzzy || op == version_fuzzy
    then codes "~"
    else if op == version_equal
    then codes "="
    else if op == bit_or version_greater version_equal
    then codes ">="
    else if op == bit_or version_greater (bit_or version_equal version_fuzzy)
    then codes ">~"
    else if op == version_greater
    then codes ">"
    else if op == depmask_checksum
    then codes "><"
    else if op == depmask_any
    then codes ""
    else codes "?"

-- `apk_version_op_string`.
unfoldable pub version_op_string : ℕ → Bytes
unfolding op_text
version_op_string op = op_text (without_conflict op)

-- The bits of one character, in the switch of `apk_version_result_mask_blob`.
sign_bits : ℕ → ℕ
sign_bits c =
    if c == b'<'
    then version_less
    else if c == b'>'
    then version_greater
    else if c == b'='
    then version_equal
    else if c == b'~'
    then bit_or version_fuzzy version_equal
    else 0

-- The loop of `apk_version_result_mask_blob`; another character makes it return 0.
mask_loop : Bytes → ℕ → ℕ
unfolding sign_bits
mask_loop [] r = r
mask_loop (c ∷ op) r =
    let more = mask_loop op (bit_or r (sign_bits c)) in if sign_bits c == 0 then 0 else more

unfoldable pub version_result_mask : Bytes → ℕ
unfolding mask_loop
version_result_mask op = mask_loop op 0

-- The masks that stand for an operator which a text can spell.
abbrev pub is_operator : ℕ → Bool
is_operator op =
    op == 1
    || op == 2
    || op == 3
    || op == 4
    || op == 5
    || op == 6
    || op == 9
    || op == 11
    || op == 13

round_trip : ℕ → Bool
unfolding version_op_string version_result_mask
round_trip op = if is_operator op then version_result_mask (version_op_string op) == op else true

round_trip_table : all_below 32 round_trip ≡ true
unfolding all_below round_trip
round_trip_table = refl

-- The text of each operator that a text can spell is read back as the operator.
pub result_mask-op_string :
    (op : ℕ) → op < 32 → is_operator op ≡ true → version_result_mask (version_op_string op) ≡ op
unfolding round_trip
result_mask-op_string op h k = ground (arith, all_below_sound 32 round_trip op round_trip_table h)
