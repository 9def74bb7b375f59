-- ===== src/Version/Grammar.antt =====
-- The texts that apk-tools/src/version.c takes for versions: each token is followed by those that may
-- stand behind it.
pub mod Numbers
pub mod Suffixes
pub mod Sound
pub mod Complete
use alpine_linux_mac_os.Base.{
  ℕ, zero, suc, ◌+◌, ◌-◌, ◌%◌, ◌*◌, ◌^◌, ◌<◌, ◌≤◌, ◌==◌, Bool, true, false, not, ◌&&◌, Option, some,
  none, Option-cases, Bool-cases, [], ◌∷◌, ◌++◌, All, Bytes, codes, length, length-append,
  length-take, take, drop, ltb, leb, if◌then◌else◌, ◌≡◌, ◌≢◌, ◌⊎◌, Ordering, compare, ==_iff, refl,
  sym, ap, subst, ◌∙◌, inl, inr, arith,
}
use alpine_linux_mac_os.Blob.Order.{memcmp, is_eq, blob_compare}
use alpine_linux_mac_os.Blob.Order.Laws.{blob_compare_iff}
use alpine_linux_mac_os.Blob.Pull.{dx, uint_loop, pull_uint, pull_blob_match}
use alpine_linux_mac_os.Ctype.{is_member, hexdigit, version_suffix, blob_spn}
use alpine_linux_mac_os.Ctype.Spans.{blob_spn-IsCut}
use alpine_linux_mac_os.Ctype.Members.{is_hexdigit}
use alpine_linux_mac_os.Version.{
  Part, part_value, initial_digit, digit, letter, suffix, suffix_no, commit_hash, revision_no, end,
  invalid, TokenState, suffix_value, token_parse_digits, token_first, next_digits, next_suffix,
  next_hash, next_revision, token_next, validate_loop, version_validate, is_end,
}

abbrev pub is_digit : ℕ → Bool
is_digit c = leb b'0' c && leb c b'9'

-- One digit or more.
abbrev pub IsNumber : Bytes → Type 0
IsNumber d = (1 ≤ length d) × All (λ c. is_digit c ≡ true) d

-- One hexadecimal digit or more.
abbrev pub IsHash : Bytes → Type 0
IsHash h = (1 ≤ length h) × All (λ c. is_hexdigit c ≡ true) h

-- The suffixes: those before a release and those behind it.
pub data IsSuffix : Bytes → Type 0 where
  alpha : IsSuffix (codes "alpha")
  beta : IsSuffix (codes "beta")
  pre : IsSuffix (codes "pre")
  rc : IsSuffix (codes "rc")
  cvs : IsSuffix (codes "cvs")
  svn : IsSuffix (codes "svn")
  git : IsSuffix (codes "git")
  hg : IsSuffix (codes "hg")
  patch : IsSuffix (codes "p")

-- What may stand behind a token.
pub data Tail : Part → Bytes → Type 0 where
  nothing : (p : Part) → Tail p []
  dotted :
      (p : Part) (d b : Bytes)
      → part_value p ≤ 1
      → IsNumber d
      → Tail digit b
      → Tail p (b'.' ∷ d ++ b)
  lettered :
      (p : Part) (c : ℕ) (b : Bytes)
      → part_value p ≤ 1
      → (leb b'a' c && leb c b'z') ≡ true
      → Tail letter b
      → Tail p (c ∷ b)
  suffixed :
      (p : Part) (s b : Bytes)
      → part_value p ≤ 4
      → IsSuffix s
      → Tail suffix b
      → Tail p (b'_' ∷ s ++ b)
  numbered : (d b : Bytes) → IsNumber d → Tail suffix_no b → Tail suffix (d ++ b)
  hashed :
      (p : Part) (h b : Bytes)
      → part_value p ≤ 4
      → IsHash h
      → Tail commit_hash b
      → Tail p (b'~' ∷ h ++ b)
  revised :
      (p : Part) (d b : Bytes)
      → part_value p ≤ 5
      → IsNumber d
      → Tail revision_no b
      → Tail p (b'-' ∷ b'r' ∷ d ++ b)

abbrev pub IsVersion : Bytes → Type 0
IsVersion v = (d : Bytes) × (b : Bytes) × (v ≡ d ++ b) × IsNumber d × Tail initial_digit b

-- No digit comes next.
abbrev pub NoDigit : Bytes → Type 0
NoDigit [] = Unit
NoDigit (c ∷ b) = is_digit c ≡ false

pub dx_digit : (c : ℕ) → leb 10 (dx c) ≡ not (is_digit c)
unfolding dx
dx_digit c = ground arith
