-- ===== src/Ctype/Members.antt =====
-- Which bytes the tables of ctype.c put into the classes that the parsers rely on.
use alpine_linux_mac_os.Base.{
  ℕ, ◌<◌, Bool, true, false, ◌&&◌, ◌||◌, ◌≡◌, refl, arith, leb, ◌==◌, all_below, all_below_sound,
  ltb, Bool-cases, inl, inr, ◌≤◌,
}
use alpine_linux_mac_os.Ctype.{is_member, hexdigit, version_suffix, dependency_comparer}

abbrev agree : Bool → Bool → Bool
agree true b = b
agree false true = false
agree false false = true

agree_sound : (a b : Bool) → agree a b ≡ true → a ≡ b
agree_sound true b h = ground arith
agree_sound false b h = ground arith

abbrev is_letter : ℕ → Bool
is_letter c = leb b'a' c && leb c b'z'

abbrev is_comparer : ℕ → Bool
is_comparer c = c == b'<' || c == b'=' || c == b'>' || c == b'~'

suffix_table : all_below 256 (λ c. agree (is_member version_suffix c) (is_letter c)) ≡ true
unfolding is_member all_below
suffix_table = refl

comparer_table : all_below 256 (λ c. agree (is_member dependency_comparer c) (is_comparer c)) ≡ true
unfolding is_member all_below
comparer_table = refl

-- A byte may stand in a version suffix exactly when it is a lower-case letter.
pub is_member-version_suffix :
    (c : ℕ) → c < 256 → is_member version_suffix c ≡ (leb b'a' c && leb c b'z')
is_member-version_suffix c h =
    agree_sound _ _
      (all_below_sound 256 (λ x. agree (is_member version_suffix x) (is_letter x)) c suffix_table h)

-- A byte may stand in a dependency's operator exactly when it is one of the four signs.
pub is_member-dependency_comparer :
    (c : ℕ)
    → c < 256
    → is_member dependency_comparer c ≡ (c == b'<' || c == b'=' || c == b'>' || c == b'~')
is_member-dependency_comparer c h = agree_sound _ _ (
    all_below_sound 256 (λ x. agree (is_member dependency_comparer x) (is_comparer x)) c
      comparer_table h)

abbrev pub is_hexdigit : ℕ → Bool
is_hexdigit c = (leb b'0' c && leb c b'9') || (leb b'a' c && leb c b'f')

hexdigit_table : all_below 256 (λ c. agree (is_member hexdigit c) (is_hexdigit c)) ≡ true
unfolding is_member all_below
hexdigit_table = refl

no_byte : (c : ℕ) → 256 ≤ c → is_member hexdigit c ≡ false
unfolding is_member
no_byte c h = ground arith

-- The hexadecimal digits of a version are those with lower-case letters.
pub is_member-hexdigit : (c : ℕ) → is_member hexdigit c ≡ is_hexdigit c
is_member-hexdigit c = elim (Bool-cases (ltb c 256)) [
  | inl e ↦ agree_sound _ _ (
      all_below_sound 256 (λ x. agree (is_member hexdigit x) (is_hexdigit x)) c hexdigit_table
        (ground arith))
  | inr e ↦ ground (arith, no_byte c (ground arith))
]
