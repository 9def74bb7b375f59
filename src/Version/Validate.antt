-- ===== src/Version/Validate.antt =====
-- `apk_version_validate`: its loop ends, and it accepts the versions of the grammar.
use alpine_linux_mac_os.Base.{
  ℕ, zero, suc, ◌+◌, ◌<◌, ◌≤◌, some, Bytes, length, ltb, ◌≡◌, ◌↔◌, true, arith, Bool-cases, inl,
  inr,
}
use alpine_linux_mac_os.Version.{
  version_validate, Part, part_value, TokenState, token_first, token_next, validate_loop,
}
use alpine_linux_mac_os.Version.Order.{rounds, rounds-next, rounds-first}
use alpine_linux_mac_os.Version.Grammar.{IsVersion}
use alpine_linux_mac_os.Version.Grammar.Sound.{validate_sound}
use alpine_linux_mac_os.Version.Grammar.Complete.{validate_complete}

-- `apk_version_validate` accepts exactly the versions of the grammar: digits, further digits each
-- behind a point, a lower-case letter or none, suffixes, each with digits or without, a hash behind
-- "~" or none, and a revision of digits behind "-r" or none, in this order.
pub version_validate-IsVersion : (v : Bytes) → (version_validate v ≡ true) ↔ IsVersion v
version_validate-IsVersion v = (validate_sound v, validate_complete v)

loop_total :
    (fuel : ℕ) (s : TokenState × Bytes)
    → rounds s ≤ fuel
    → (p : Part) × (validate_loop fuel s.0 s.1 ≡ some p) × (7 ≤ part_value p)
unfolding validate_loop
loop_total zero (t, b) h = absurd (ground arith)
loop_total (suc f) (t, b) h = elim (Bool-cases (ltb (part_value t.token) 7)) [
  | inl g ↦
      let g' : part_value t.token < 7 = ground arith in
      rw g (loop_total f (token_next t b) (omega (arith, rounds-next t b g')))
  | inr g ↦ (t.token, ground arith, ground arith)
]

-- The loop of `apk_version_validate` ends for every text, at TOKEN_END or at TOKEN_INVALID: the
-- rounds that the model allows are enough.
pub validate_loop_total :
    (v : Bytes)
    → (p : Part) × (validate_loop (length v + 2) (token_first v).0 (token_first v).1 ≡ some p)
      × (7 ≤ part_value p)
validate_loop_total v = loop_total (length v + 2) (token_first v) (rounds-first v)
