-- ===== src/Version.antt =====
-- apk-tools/src/version.c and apk_version.h: the tokens of a version, their comparison, and the
-- operators of a dependency. The results are the bit masks of the source.
pub mod Operators
pub mod Compare
pub mod Advance
pub mod Keys
pub mod Order
pub mod Match
pub mod Validate
pub mod Grammar
use alpine_linux_mac_os.Base.{
  ℕ, zero, suc, ◌+◌, ◌-◌, Ordering, Bool, true, false, not, ◌&&◌, ◌||◌, Option, none, some, [], ◌∷◌,
  Bytes, codes, length, take, drop, ltb, leb, ◌==◌, if◌then◌else◌,
}
use alpine_linux_mac_os.Blob.Order.{blob_compare, is_eq}
use alpine_linux_mac_os.Blob.Pull.{pull_uint, pull_blob_match}
use alpine_linux_mac_os.Ctype.{hexdigit, version_suffix, blob_spn}

-- The enum PARTS.
pub data Part : Type 0 where
  initial_digit digit letter suffix suffix_no commit_hash revision_no end invalid : Part

-- The value of the constant, which the code compares by `<` and `>`.
abbrev pub part_value : Part → ℕ
part_value initial_digit = 0
part_value digit = 1
part_value letter = 2
part_value suffix = 3
part_value suffix_no = 4
part_value commit_hash = 5
part_value revision_no = 6
part_value end = 7
part_value invalid = 8

-- The SUFFIX_* constants.
abbrev pub suffix_invalid : ℕ
suffix_invalid = 0

abbrev pub suffix_none : ℕ
suffix_none = 5

pub record TokenState : Type 0 where
  pub token : Part
  pub suffix : ℕ
  pub number : ℕ
  pub value : Bytes

abbrev equals : Bytes → Bytes → Bool
equals a b = is_eq (blob_compare a b)

-- `suffix_value`: the first letter selects a name, which the whole suffix has to be.
unfoldable pub suffix_value : Bytes → ℕ
unfolding blob_compare
suffix_value [] = suffix_invalid
suffix_value (c ∷ r) =
    let suf = c ∷ r in
    if c == b'a'
    then (if equals suf (codes "alpha") then 1 else 0)
    else if c == b'b'
    then (if equals suf (codes "beta") then 2 else 0)
    else if c == b'c'
    then (if equals suf (codes "cvs") then 6 else 0)
    else if c == b'g'
    then (if equals suf (codes "git") then 8 else 0)
    else if c == b'h'
    then (if equals suf (codes "hg") then 9 else 0)
    else if c == b'p' && ltb 1 (length suf)
    then (if equals suf (codes "pre") then 3 else 0)
    else if c == b'p'
    then (if equals suf (codes "p") then 10 else 0)
    else if c == b'r'
    then (if equals suf (codes "rc") then 4 else 0)
    else if c == b's'
    then (if equals suf (codes "svn") then 7 else 0)
    else suffix_invalid

-- `token_parse_digits`, for a state whose token is set.
unfoldable pub token_parse_digits : TokenState → Bytes → TokenState × Bytes
unfolding pull_uint
token_parse_digits t b =
    let (number, rest) = pull_uint b 10 in
    let value = take (length b - length rest) b in
    (
      record t {
        number = number;
        value = value;
        token = if length value == 0 then invalid else t.token;
      },
      rest,
    )

-- The state before `token_first`. The source leaves it uninitialised; `token_first` sets all that
-- is read later.
abbrev blank : TokenState
blank = record { token = invalid; suffix = 0; number = 0; value = [] }

unfoldable pub token_first : Bytes → TokenState × Bytes
unfolding token_parse_digits
token_first b = token_parse_digits (record blank { token = initial_digit }) b

abbrev fail : TokenState → Bytes → TokenState × Bytes
fail t b = (record t { token = invalid }, b)

-- The branch for digits in `token_next`.
unfoldable pub next_digits : TokenState → Bytes → TokenState × Bytes
unfolding token_parse_digits
next_digits t b = elim (t.token) [
  | initial_digit ↦ token_parse_digits (record t { token = digit }) b
  | digit ↦ token_parse_digits (record t { token = digit }) b
  | suffix ↦ token_parse_digits (record t { token = suffix_no }) b
  | _ ↦ fail t b
]

-- The branch for '_': `rest` is behind it.
unfoldable pub next_suffix : TokenState → Bytes → TokenState × Bytes
unfolding suffix_value blob_spn
next_suffix t rest =
    let span = blob_spn rest version_suffix in
    let s = suffix_value span.left in
    (
      record t {
        value = span.left;
        suffix = s;
        token = if s == suffix_invalid then invalid else suffix;
      },
      span.right,
    )

-- The branch for '~'.
unfoldable pub next_hash : TokenState → Bytes → TokenState × Bytes
unfolding blob_spn
next_hash t rest =
    let span = blob_spn rest hexdigit in
    (
      record t {
        value = span.left;
        token = if length span.left == 0 then invalid else commit_hash;
      },
      span.right,
    )

-- The branch for '-'.
unfoldable pub next_revision : TokenState → Bytes → TokenState × Bytes
unfolding token_parse_digits pull_blob_match
next_revision t b = elim (pull_blob_match b (codes "-r")) [
  | none ↦ fail t b
  | some rest ↦ token_parse_digits (record t { token = revision_no }) rest
]

-- `token_next`: the new state, and the blob behind the token.
unfoldable pub token_next : TokenState → Bytes → TokenState × Bytes
unfolding next_digits next_suffix next_hash next_revision
token_next t [] = (record t { token = end }, [])
token_next t (c ∷ rest) =
    let v = part_value (t.token) in
    if leb b'a' c && leb c b'z'
    then (if ltb (part_value digit) v
        then fail t (c ∷ rest)
        else (record t { value = c ∷ []; token = letter }, rest))
    else if c == b'.'
    then (if ltb (part_value digit) v then fail t (c ∷ rest) else next_digits t rest)
    else if leb b'0' c && leb c b'9'
    then next_digits t (c ∷ rest)
    else if c == b'_'
    then (if ltb (part_value suffix_no) v then fail t (c ∷ rest) else next_suffix t rest)
    else if c == b'~'
    then (if leb (part_value commit_hash) v then fail t (c ∷ rest) else next_hash t rest)
    else if c == b'-'
    then (if leb (part_value revision_no) v then fail t (c ∷ rest) else next_revision t (c ∷ rest))
    else fail t (c ∷ rest)

-- The loop of `apk_version_validate`, by rounds: the token at which it ends.
unfoldable pub validate_loop : ℕ → TokenState → Bytes → Option Part
unfolding token_next
validate_loop zero t b = none
validate_loop (suc fuel) t b =
    let more = validate_loop fuel (token_next t b).0 (token_next t b).1 in
    if ltb (part_value (t.token)) (part_value end) then more else some (t.token)

abbrev pub is_end : Option Part → Bool
is_end (some end) = true
is_end _ = false

-- `apk_version_validate`. Every round but the last takes a byte.
unfoldable pub version_validate : Bytes → Bool
unfolding validate_loop token_first
version_validate ver =
    is_end (validate_loop (length ver + 2) (token_first ver).0 (token_first ver).1)
