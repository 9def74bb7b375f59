-- ===== src/Version/Grammar/Numbers.antt =====
-- The numbers that `token_parse_digits` reads.
use alpine_linux_mac_os.Base.{
  ℕ, ◌+◌, ◌-◌, ◌%◌, ◌*◌, ◌^◌, ◌≤◌, ◌==◌, true, false, Bool-cases, [], ◌∷◌, ◌++◌, All, Bytes, length,
  length-append, length-take, take, leb, ◌≡◌, ◌⊎◌, refl, ap, inl, inr, arith,
}
use alpine_linux_mac_os.Blob.Pull.{dx, uint_loop, pull_uint}
use alpine_linux_mac_os.Version.{invalid, TokenState, token_parse_digits}
use alpine_linux_mac_os.Version.Grammar.{is_digit, IsNumber, NoDigit, dx_digit}

-- What `apk_blob_pull_uint` reads: the digits that come next.
uint_cut :
    (b : Bytes) (val : ℕ)
    → (d : Bytes) × (b ≡ d ++ (uint_loop b 10 val).1)
      × All (λ c. is_digit c ≡ true) d
      × NoDigit (uint_loop b 10 val).1
unfolding uint_loop
uint_cut [] val = ([], refl, tt, tt)
uint_cut (c ∷ b) val = elim (Bool-cases (c == 0)) [
  | inl z ↦ ([], rw (uint_loop, z) refl, tt, rw (uint_loop, z) (ground arith))
  | inr z ↦ elim (Bool-cases (leb 10 (dx c))) [
    | inl e ↦ ([], rw (uint_loop, z, e) refl, tt, rw (uint_loop, z, e) (ground (arith, dx_digit c)))
    | inr e ↦
        let (d, whole, digits, stop) = uint_cut b ((val * 10 + dx c) % 2 ^ 64) in
        (
          c ∷ d,
          rw (uint_loop, z, e) (ap (λ x. c ∷ x) whole),
          (ground (arith, dx_digit c), digits),
          rw (uint_loop, z, e) stop,
        )
  ]
]

-- What `token_parse_digits` makes of a token.
pub digits_read :
    (t : TokenState) (b : Bytes)
    → ((token_parse_digits t b).0.token ≡ invalid)
      ⊎ (((token_parse_digits t b).0.token ≡ t.token)
          × NoDigit (token_parse_digits t b).1
          × ((d : Bytes) × IsNumber d × (b ≡ d ++ (token_parse_digits t b).1)))
unfolding token_parse_digits pull_uint
digits_read t b =
    let (d, whole, digits, stop) = uint_cut b 0 in
    let rest = (uint_loop b 10 0).1 in
    let value = take (length b - length rest) b in
    let size = length-append d rest in
    let long : length b ≡ length (d ++ rest) = ap length whole in
    elim (Bool-cases (length value == 0)) [
      | inl e ↦ inl (rw (token_parse_digits, e) refl)
      | inr e ↦
          let some_digit : 1 ≤ length d = ground (arith, length-take (length b - length rest) b) in
          inr (rw (token_parse_digits, e) refl, stop, (d, (some_digit, digits), whole))
    ]

-- The digits that come next are read, up to the first byte that is none.
uint_loop-number :
    (d b : Bytes) (val : ℕ)
    → All (λ c. is_digit c ≡ true) d
    → NoDigit b
    → (uint_loop (d ++ b) 10 val).1 ≡ b
unfolding uint_loop
uint_loop-number [] [] val h k = refl
uint_loop-number [] (c ∷ b) val h k = ground (arith, dx_digit c)
uint_loop-number (c ∷ d) b val (digit_c, h) k =
    let e : leb 10 (dx c) ≡ false = ground (arith, dx_digit c) in
    let z : (c == 0) ≡ false = ground arith in
    rw (uint_loop, z, e) (uint_loop-number d b ((val * 10 + dx c) % 2 ^ 64) h k)

pub parse-number :
    (t : TokenState) (d b : Bytes)
    → IsNumber d
    → NoDigit b
    → ((token_parse_digits t (d ++ b)).0.token ≡ t.token) × ((token_parse_digits t (d ++ b)).1 ≡ b)
unfolding token_parse_digits pull_uint
parse-number t d b (long, digits) stop =
    let rest = uint_loop-number d b 0 digits stop in
    let size = length-append d b in
    let some_value : (length (take (length (d ++ b) - length b) (d ++ b)) == 0) ≡ false =
      ground (arith, length-take (length (d ++ b) - length b) (d ++ b)) in
    (rw (token_parse_digits, rest, some_value) refl, rest)
