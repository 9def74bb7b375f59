-- ===== src/Version/Keys.antt =====
-- The order of versions that the comparison implements, stated apart from it: a version is the list
-- of its tokens' keys, and versions are compared as such lists, lexicographically.
use alpine_linux_mac_os.Base.{
  ℕ, ◌<◌, ◌≤◌, compare, Ordering, false, [], ◌∷◌, List, Bytes, ltb, ◌==◌, if◌then◌else◌, ◌≡◌, ◌≢◌,
  refl, arith, lex, sym, inl, inr, ◌⊎◌, ◌∙◌,
}
use mathlib.Core.List.{tail}
use alpine_linux_mac_os.Blob.Order.Laws.{blob_sort-lex}
use alpine_linux_mac_os.Version.{
  Part, part_value, initial_digit, digit, letter, suffix, suffix_no, commit_hash, revision_no, end,
  invalid, suffix_none, TokenState,
}
use alpine_linux_mac_os.Version.Compare.{result_of, first_byte, token_cmp, compare_ends}
use alpine_linux_mac_os.Version.Advance.{Goes, WellRead}

-- The first number ranks what may stand behind equal parts: a pre-release suffix, an invalid rest,
-- the end, a revision, a hash, a suffix number, another suffix, a letter, a number. A number with
-- a leading zero is compared as text, and is less than one without.
unfoldable pub token_key : TokenState → List ℕ
token_key t = elim (t.token) [
  | initial_digit ↦ 9 ∷ t.number ∷ []
  | digit ↦ if first_byte t.value == b'0' then 8 ∷ 0 ∷ t.value else 8 ∷ 1 ∷ t.number ∷ []
  | letter ↦ 7 ∷ first_byte t.value ∷ []
  | suffix ↦ if ltb t.suffix suffix_none then 0 ∷ t.suffix ∷ [] else 6 ∷ t.suffix ∷ []
  | suffix_no ↦ 5 ∷ t.number ∷ []
  | commit_hash ↦ 4 ∷ t.value
  | revision_no ↦ 3 ∷ t.number ∷ []
  | end ↦ 2 ∷ []
  | invalid ↦ 1 ∷ []
]

abbrev pub compare_keys : TokenState → TokenState → Ordering
compare_keys ta tb = lex compare (token_key ta) (token_key tb)

lex_one : (k x y : ℕ) → lex compare (k ∷ x ∷ []) (k ∷ y ∷ []) ≡ compare x y
lex_one k x y = ground arith

lex_more : (k : ℕ) (x y : List ℕ) → lex compare (k ∷ x) (k ∷ y) ≡ lex compare x y
lex_more k x y = ground arith

-- A text that begins with '0' sorts before one that begins with another digit.
zero_first :
    (x y : Bytes)
    → first_byte x ≡ b'0'
    → b'0' < first_byte y
    → (lex compare x y ≡ Ordering.lt) × (lex compare y x ≡ Ordering.gt)
zero_first [] y h k = absurd (omega arith)
zero_first (c ∷ x) [] h k = absurd (omega arith)
zero_first (c ∷ x) (d ∷ y) h k = ground arith

digit_keys :
    (ta tb : TokenState)
    → ta.token ≡ digit
    → tb.token ≡ digit
    → b'0' ≤ first_byte ta.value
    → b'0' ≤ first_byte tb.value
    → token_cmp ta tb ≡ result_of (compare_keys ta tb)
unfolding token_cmp token_key
digit_keys ta tb ea eb ha hb =
    rw (ea, eb)
      (ground (
        arith,
        blob_sort-lex ta.value tb.value,
        zero_first ta.value tb.value,
        zero_first tb.value ta.value,
      ))

-- One lemma for each kind of token that is no TOKEN_DIGIT.
module _ (ta tb : TokenState) where
  number_keys :
      (p : Part)
      → (p ≡ initial_digit) ⊎ (p ≡ suffix_no) ⊎ (p ≡ revision_no)
      → ta.token ≡ p
      → tb.token ≡ p
      → token_cmp ta tb ≡ result_of (compare_keys ta tb)
  unfolding token_cmp token_key
  number_keys initial_digit h ea eb = rw (ea, eb) (ground arith)
  number_keys suffix_no h ea eb = rw (ea, eb) (ground arith)
  number_keys revision_no h ea eb = rw (ea, eb) (ground arith)
  number_keys _ h ea eb = ground arith

  letter_keys :
      ta.token ≡ letter → tb.token ≡ letter → token_cmp ta tb ≡ result_of (compare_keys ta tb)
  unfolding token_cmp token_key
  letter_keys ea eb = rw (ea, eb) (ground arith)

  suffix_keys :
      ta.token ≡ suffix → tb.token ≡ suffix → token_cmp ta tb ≡ result_of (compare_keys ta tb)
  unfolding token_cmp token_key
  suffix_keys ea eb = rw (ea, eb) (ground arith)

  hash_keys :
      ta.token ≡ commit_hash
      → tb.token ≡ commit_hash
      → token_cmp ta tb ≡ result_of (compare_keys ta tb)
  unfolding token_cmp token_key
  hash_keys ea eb = rw (ea, eb) (ground (arith, blob_sort-lex ta.value tb.value))

-- The part that a value of the enum stands for.
pub part_value-injective : (p q : Part) → part_value p ≡ part_value q → p ≡ q
part_value-injective p q h = ground arith

-- Two tokens of one kind compare as their keys do.
pub token_cmp-keys :
    (ta tb : TokenState)
    → WellRead ta
    → WellRead tb
    → ta.token ≡ tb.token
    → Goes ta
    → token_cmp ta tb ≡ result_of (compare_keys ta tb)
token_cmp-keys ta tb ha hb e g = at (ta.token) refl (sym e)
  where
    at :
        (p : Part)
        → ta.token ≡ p
        → tb.token ≡ ta.token
        → token_cmp ta tb ≡ result_of (compare_keys ta tb)
    at initial_digit ea eb = number_keys ta tb initial_digit (inl refl) ea (eb ∙ ea)
    at digit ea eb = digit_keys ta tb ea (eb ∙ ea) (ha ea) (hb (eb ∙ ea))
    at letter ea eb = letter_keys ta tb ea (eb ∙ ea)
    at suffix ea eb = suffix_keys ta tb ea (eb ∙ ea)
    at suffix_no ea eb = number_keys ta tb suffix_no (inr (inl refl)) ea (eb ∙ ea)
    at commit_hash ea eb = hash_keys ta tb ea (eb ∙ ea)
    at revision_no ea eb = number_keys ta tb revision_no (inr (inr refl)) ea (eb ∙ ea)
    at end ea eb = let x : part_value end < 7 = rw ea at g in absurd (omega arith)
    at invalid ea eb = let x : part_value invalid < 7 = rw ea at g in absurd (omega arith)

-- The first number of a key.
rank : TokenState → ℕ
rank t = elim (t.token) [
  | initial_digit ↦ 9
  | digit ↦ 8
  | letter ↦ 7
  | suffix ↦ if ltb t.suffix suffix_none then 0 else 6
  | suffix_no ↦ 5
  | commit_hash ↦ 4
  | revision_no ↦ 3
  | end ↦ 2
  | invalid ↦ 1
]

key_rank : (t : TokenState) → token_key t ≡ rank t ∷ tail (token_key t)
unfolding token_key rank
key_rank t = ground arith

-- Where the loop ends at different tokens, the ranks decide, and they differ.
ends_rank :
    (ta tb : TokenState)
    → ta.token ≢ tb.token
    → (compare_ends false ta tb ≡ result_of (compare (rank ta) (rank tb))) × (rank ta ≢ rank tb)
unfolding compare_ends rank
ends_rank ta tb h = ground arith

-- Two different tokens compare as their keys do, and their keys differ.
pub compare_ends-keys :
    (ta tb : TokenState)
    → ta.token ≢ tb.token
    → (compare_ends false ta tb ≡ result_of (compare_keys ta tb))
      × (compare_keys ta tb ≢ Ordering.eq)
compare_ends-keys ta tb h =
    let (e, n) = ends_rank ta tb h in rw (key_rank ta, key_rank tb) (ground arith)

-- Two ends, or two invalid rests, have one key.
pub stop_keys :
    (ta tb : TokenState)
    → ta.token ≡ tb.token
    → 7 ≤ part_value ta.token
    → (compare_ends false ta tb ≡ 1) × (compare_keys ta tb ≡ Ordering.eq)
unfolding compare_ends token_key
stop_keys ta tb e h = ground arith
