-- ===== src/Repositories/Lines.antt =====
-- The lines of a repositories file: `apk_repoparser_parse` of apk-tools/src/repoparser.c, and the
-- path builder of pathbuilder.c that it joins components with.
use alpine_linux_mac_os.Base.{
  ℕ, zero, suc, ◌+◌, bit_and, Bool, not, ◌&&◌, ◌||◌, Option, some, none, Bytes, codes, length,
  get_or, leb, ◌==◌, if◌then◌else◌,
}
use alpine_linux_mac_os.Ctype.{blob_spn, blob_cspn, repository_separator, variable_name}
use alpine_linux_mac_os.Blob.Order.{is_eq, blob_compare, blob_starts_with}
use alpine_linux_mac_os.Blob.Search.{blob_split}
use alpine_linux_mac_os.Blob.Subst.{Result, ok, err, repo_variable, repo_syntax, blob_subst}
use alpine_linux_mac_os.Hash.{Hash}
use alpine_linux_mac_os.Repositories.Variables.{
  Variable, varf_overwrite, variable_set, variable_subst,
}

-- PATH_MAX.
abbrev pub path_max : ℕ
path_max = 4096

-- The byte at a blob's pointer; behind an empty text stands its terminating zero.
abbrev pub byte_at : Bytes → ℕ
byte_at b = get_or b 0 0

-- `get_word`: the word and the rest of the line.
unfoldable pub get_word : Bytes → Bytes × Bytes
unfolding blob_spn blob_cspn
get_word line =
    let cut = blob_cspn line repository_separator in
    (cut.left, (blob_spn cut.right repository_separator).right)

-- The first of several texts that a blob equals.
abbrev pub is_text : Bytes → Bytes → Bool
is_text a b = is_eq (blob_compare a b)

abbrev pub is_alpha : ℕ → Bool
is_alpha c = (leb b'A' c && leb c b'Z') || (leb b'a' c && leb c b'z')

-- The options of a definition: the flags and the rest of the line. A round takes the "-" at least.
unfoldable pub set_options : ℕ → Bytes → ℕ → Option (Result (ℕ × Bytes))
unfolding get_word blob_compare
set_options zero line flags = none
set_options (suc fuel) line flags =
    let (key, rest) = get_word line in
    let next = set_options fuel rest (bit_and flags 0xfe) in
    if not (byte_at line == b'-')
    then some (ok (flags, line))
    else if is_text key (codes "-default")
    then next
    else some (err repo_syntax)

-- `apk_blob_subst` with the variables, into an array of PATH_MAX bytes at an address.
abbrev pub subst_text : ℕ → Hash Variable → Bytes → Option (Result Bytes)
subst_text base vars b = blob_subst (λ key to. variable_subst vars key to) base path_max b

-- The tests of a variable's name; `line` is the definition, at whose pointer the name stands.
unfoldable pub is_definable : Bytes → Bytes → Bool
unfolding blob_starts_with blob_spn
is_definable line key =
    not (blob_starts_with key (codes "APK_"))
    && is_alpha (byte_at line)
    && not (blob_spn key variable_name).ret

-- A definition behind its options; `buf` is the address of the array for its value.
unfoldable pub define : ℕ → Hash Variable → ℕ → Bytes → Option (Result (Hash Variable))
unfolding blob_split is_definable variable_set
define buf vars flags line = elim (blob_split line (codes "=")) [
  | none ↦ some (err repo_variable)
  | some (key, value) ↦
      if not (is_definable line key)
      then some (err repo_variable)
      else elim (subst_text buf vars value) [
        | none ↦ none
        | some (err e) ↦ some (err e)
        | some (ok text) ↦ some (ok (variable_set vars key text flags))
      ]
]

-- `apk_repoparser_parse_set`.
unfoldable pub parse_set : ℕ → Hash Variable → Bytes → Option (Result (Hash Variable))
unfolding set_options define
parse_set buf vars line = elim (set_options (length line + 1) line varf_overwrite) [
  | none ↦ none
  | some (err e) ↦ some (err e)
  | some (ok (flags, rest)) ↦ define buf vars flags rest
]
