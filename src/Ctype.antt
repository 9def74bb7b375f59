-- ===== src/Ctype.antt =====
-- apk-tools/src/ctype.c and apk_ctype.h: the character classes, and the two functions that cut a
-- blob where a class begins or ends.
pub mod Members
pub mod Spans
use alpine_linux_mac_os.Base.{
  ℕ, ◌-◌, ◌^◌, ◌<◌, bit_and, bit_or, Bool, true, false, not, ◌&&◌, ◌||◌, [], ◌∷◌, ◌≡◌, refl, Bytes,
  codes, ltb, leb, ◌==◌, if◌then◌else◌,
}

-- The enum of apk_ctype.h. The last two are tested against the second table.
pub data CharClass : Type 0 where
  hexdigit package_name version_suffix dependency_name dependency_comparer : CharClass
  variable_name tag_name dependency_separator repository_separator : CharClass

abbrev pub ctype_value : CharClass → ℕ
ctype_value hexdigit = 0
ctype_value package_name = 1
ctype_value version_suffix = 2
ctype_value dependency_name = 3
ctype_value dependency_comparer = 4
ctype_value variable_name = 5
ctype_value tag_name = 6
ctype_value dependency_separator = 8
ctype_value repository_separator = 9

abbrev bit : ℕ → ℕ
bit n = 2 ^ n

abbrev hexdgt : ℕ
hexdgt = bit 0

abbrev pkgname : ℕ
pkgname = bit_or (bit 1) (bit 3)

abbrev versuf : ℕ
versuf = bit 2

abbrev depname : ℕ
depname = bit 3

abbrev depcomp : ℕ
depcomp = bit 4

abbrev varname : ℕ
varname = bit_or (bit 5) (bit 6)

abbrev tagname : ℕ
tagname = bit 6

abbrev ctype1_size : ℕ
ctype1_size = 127

abbrev ctype2_size : ℕ
ctype2_size = 33

-- `apk_ctype1[c]`; entries that the initialiser leaves out are 0.
ctype1 : ℕ → ℕ
ctype1 c =
    if c == b'+' || c == b'-' || c == b'.'
    then bit_or pkgname tagname
    else if c == b',' || c == b':' || c == b'/' || c == b'[' || c == b']'
    then bit_or depname tagname
    else if c == b'<' || c == b'>' || c == b'~'
    then depcomp
    else if c == b'='
    then bit_or depcomp tagname
    else if leb b'0' c && leb c b'9'
    then bit_or hexdgt (bit_or pkgname varname)
    else if leb b'A' c && leb c b'Z' || c == b'_'
    then bit_or pkgname varname
    else if leb b'a' c && leb c b'f'
    then bit_or hexdgt (bit_or versuf (bit_or pkgname varname))
    else if leb b'g' c && leb c b'z'
    then bit_or versuf (bit_or pkgname varname)
    else 0

-- `apk_ctype2[c]`: DEPSEP is bit 0 and REPOSEP is bit 1.
ctype2 : ℕ → ℕ
ctype2 c =
    if c == 9
    then bit 1
    else if c == 10
    then bit 0
    else if c == b' '
    then bit_or (bit 1) (bit 0)
    else 0

-- The table, its size and the mask that `get_array` selects, and the test of a byte against them.
unfoldable pub is_member : CharClass → ℕ → Bool
unfolding ctype1 ctype2
is_member ctype ch =
    let v = ctype_value ctype in
    if leb 8 v
    then ltb ch ctype2_size && not (bit_and (ctype2 ch) (bit (v - 8)) == 0)
    else ltb ch ctype1_size && not (bit_and (ctype1 ch) (bit v) == 0)

-- What the two functions return: `ret`, and the blobs behind `l` and `r`.
pub record Span : Type 0 where
  pub ret : Bool
  pub left : Bytes
  pub right : Bytes

-- The loop of both functions: it stops before the first byte of which `stop` holds.
unfoldable pub scan : (ℕ → Bool) → Bytes → Span
scan stop [] = record { ret = false; left = []; right = [] }
scan stop (ch ∷ b) =
    let s = scan stop b in
    if stop ch
    then record { ret = true; left = []; right = ch ∷ b }
    else record { ret = s.ret; left = ch ∷ s.left; right = s.right }

unfoldable pub blob_spn : Bytes → CharClass → Span
unfolding scan
blob_spn b ctype = scan (λ ch. not (is_member ctype ch)) b

unfoldable pub blob_cspn : Bytes → CharClass → Span
unfolding scan
blob_cspn b ctype = scan (is_member ctype) b
