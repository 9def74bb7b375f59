-- ===== src/Version/Advance.antt =====
-- `token_next` takes at least one byte for every token that it reads, and a digit token begins with
-- a digit.
use alpine_linux_mac_os.Base.{
  ℕ, suc, ◌+◌, ◌-◌, ◌*◌, ◌%◌, ◌^◌, ◌<◌, ◌≤◌, Bool, true, false, ◌&&◌, some, [], ◌∷◌, Bytes, codes,
  length, take, ltb, leb, ◌==◌, if◌then◌else◌, ◌≡◌, refl, arith, Option-cases, inl, inr,
  length-append, length-drop, ap, ◌⊎◌, ◌≢◌, length-take,
}
use alpine_linux_mac_os.Blob.Pull.{dx, uint_loop, pull_uint, pull_blob_match}
use alpine_linux_mac_os.Ctype.{CharClass, hexdigit, version_suffix, blob_spn}
use alpine_linux_mac_os.Ctype.Spans.{blob_spn-IsCut}
use alpine_linux_mac_os.Version.{
  Part, part_value, initial_digit, digit, letter, suffix, suffix_no, revision_no, end, invalid,
  TokenState, token_parse_digits, token_first, next_digits, next_suffix, next_hash, next_revision,
  token_next,
}
use alpine_linux_mac_os.Version.Compare.{first_byte}

-- Below TOKEN_END.
abbrev pub Goes : TokenState → Type 0
Goes t = part_value t.token < 7

-- A digit token begins with a digit.
abbrev pub WellRead : TokenState → Type 0
WellRead t = t.token ≡ digit → b'0' ≤ first_byte t.value

length-uint_loop : (b : Bytes) (radix val : ℕ) → length (uint_loop b radix val).1 ≤ length b
unfolding uint_loop
length-uint_loop [] radix val = omega arith
length-uint_loop (c ∷ b) radix val =
    ground (arith, length-uint_loop b radix ((val * radix + dx c) % 2 ^ 64))

-- The first byte is a digit, or nothing is taken.
uint_first :
    (c : ℕ) (b : Bytes)
    → ((pull_uint (c ∷ b) 10).1 ≡ c ∷ b)
      ⊎ ((b'0' ≤ c) × (length (pull_uint (c ∷ b) 10).1 ≤ length b))
unfolding pull_uint
uint_first c b = ground (arith, length-uint_loop b 10 (dx c % 2 ^ 64))

-- What a step gives: if the token is one, the blob is shorter, and a digit token begins well.
pub record Advances (b : Bytes) (r : TokenState × Bytes) : Type 0 where
  pub shorter : Goes r.0 → length r.1 < length b
  pub begins : WellRead r.0

digits_none :
    (t : TokenState) (b : Bytes)
    → (pull_uint b 10).1 ≡ b
    → (token_parse_digits t b).0.token ≡ invalid
unfolding token_parse_digits
digits_none t b e =
    let n : length (take (length b - length b) b) ≡ 0 =
      omega (arith, length-take (length b - length b) b) in
    rw (e, n) refl

digits_taken :
    (t : TokenState) (c : ℕ) (b : Bytes)
    → length (pull_uint (c ∷ b) 10).1 ≤ length b
    → first_byte (token_parse_digits t (c ∷ b)).0.value ≡ c
unfolding token_parse_digits
digits_taken t c b h =
    let k : suc (length b) - length (pull_uint (c ∷ b) 10).1
        ≡ suc (length b - length (pull_uint (c ∷ b) 10).1) =
      omega arith in
    rw k refl

pub digits-Advances : (t : TokenState) (b : Bytes) → Advances b (token_parse_digits t b)
digits-Advances t [] = record {
  shorter = λ g. ground (arith, digits_none t [] (unfold pull_uint in refl));
  begins = λ g. ground (arith, digits_none t [] (unfold pull_uint in refl));
}
digits-Advances t (c ∷ b) = elim (uint_first c b) [
  | inl e ↦ record {
    shorter = λ g. ground (arith, digits_none t (c ∷ b) e);
    begins = λ g. ground (arith, digits_none t (c ∷ b) e);
  }
  | inr (d, l) ↦ record {
    shorter = λ g. unfold token_parse_digits in omega arith;
    begins = λ g. omega (arith, digits_taken t c b l);
  }
]

-- A step that fails, or that sets another token than a digit.
other-Advances :
    (b : Bytes) (r : TokenState × Bytes)
    → r.0.token ≢ digit
    → (Goes r.0 → length r.1 < length b)
    → Advances b r
other-Advances b r n h = record { shorter = h; begins = λ e. absurd (n e) }

-- A step behind the first byte.
later-Advances : (c : ℕ) (b : Bytes) (r : TokenState × Bytes) → Advances b r → Advances (c ∷ b) r
later-Advances c b r a = record { shorter = λ g. omega (arith, a.shorter g); begins = a.begins }

failed-Advances : (t : TokenState) (b : Bytes) → Advances b (record t { token = invalid }, b)
failed-Advances t b =
    other-Advances b (record t { token = invalid }, b) (cc) (λ g. absurd (omega arith))

next_digits-Advances : (t : TokenState) (b : Bytes) → Advances b (next_digits t b)
unfolding next_digits
next_digits-Advances t b = at (t.token) refl
  where
    at : (p : Part) → t.token ≡ p → Advances b (next_digits t b)
    at initial_digit e = rw (e, next_digits) (digits-Advances (record t { token = digit }) b)
    at digit e = rw (e, next_digits) (digits-Advances (record t { token = digit }) b)
    at suffix e = rw (e, next_digits) (digits-Advances (record t { token = suffix_no }) b)
    at _ e = rw (e, next_digits) (failed-Advances t b)

length-spn :
    (b : Bytes) (ctype : CharClass)
    → length (blob_spn b ctype).left + length (blob_spn b ctype).right ≡ length b
length-spn b ctype =
    let w = (blob_spn-IsCut b ctype).whole in
    omega (arith, length-append {0} (blob_spn b ctype).left (blob_spn b ctype).right, ap length w)

next_suffix-Advances : (t : TokenState) (c : ℕ) (b : Bytes) → Advances (c ∷ b) (next_suffix t b)
unfolding next_suffix
next_suffix-Advances t c b =
    other-Advances (c ∷ b) (next_suffix t b) (ground arith)
      (λ g. omega (arith, length-spn b version_suffix))

next_hash-Advances : (t : TokenState) (c : ℕ) (b : Bytes) → Advances (c ∷ b) (next_hash t b)
unfolding next_hash
next_hash-Advances t c b =
    other-Advances (c ∷ b) (next_hash t b) (ground arith)
      (λ g. omega (arith, length-spn b hexdigit))

length-match : (b match rest : Bytes) → pull_blob_match b match ≡ some rest → length rest ≤ length b
unfolding pull_blob_match
length-match b match rest h = ground (arith, length-drop (length match) b)

next_revision-Advances : (t : TokenState) (b : Bytes) → Advances b (next_revision t b)
unfolding next_revision
next_revision-Advances t b = elim (Option-cases (pull_blob_match b (codes "-r"))) [
  | inl e ↦ rw (e, next_revision) (failed-Advances t b)
  | inr (rest, e) ↦
      let a = digits-Advances (record t { token = revision_no }) rest in
      rw (e, next_revision)
        (record {
          shorter = λ g. omega (arith, a.shorter g, length-match b (codes "-r") rest e);
          begins = a.begins;
        })
]

Advances-if :
    (q : Bool) {b : Bytes} {x y : TokenState × Bytes}
    → Advances b x
    → Advances b y
    → Advances b (if q then x else y)
Advances-if true p r = p
Advances-if false p r = r

letter-Advances :
    (t : TokenState) (c : ℕ) (b : Bytes)
    → Advances (c ∷ b) (record t { value = c ∷ []; token = letter }, b)
letter-Advances t c b =
    other-Advances (c ∷ b) (record t { value = c ∷ []; token = letter }, b) (cc) (λ g. omega arith)

-- Every step of `token_next` on a blob that is not empty.
step-Advances : (t : TokenState) (c : ℕ) (b : Bytes) → Advances (c ∷ b) (token_next t (c ∷ b))
unfolding token_next
step-Advances t c b =
    let v = part_value (t.token) in
    let failed = failed-Advances t (c ∷ b) in
    let late = ltb 1 v in
    Advances-if (leb b'a' c && leb c b'z') (Advances-if late failed (letter-Advances t c b)) (
      Advances-if (c == b'.')
        (Advances-if late failed (later-Advances c b (next_digits t b) (next_digits-Advances t b)))
        (Advances-if (leb b'0' c && leb c b'9') (next_digits-Advances t (c ∷ b)) (
          Advances-if (c == b'_') (Advances-if (ltb 4 v) failed (next_suffix-Advances t c b)) (
            Advances-if (c == b'~') (Advances-if (leb 5 v) failed (next_hash-Advances t c b)) (
              Advances-if (c == b'-')
                (Advances-if (leb 6 v) failed (next_revision-Advances t (c ∷ b))) failed)))))

-- `token_next` takes at least one byte for each token that is neither TOKEN_END nor TOKEN_INVALID,
-- and a TOKEN_DIGIT that it reads begins with a digit.
pub token_next-Advances : (t : TokenState) (b : Bytes) → Advances b (token_next t b)
token_next-Advances t [] =
    unfold token_next in
    other-Advances [] (record t { token = end }, []) (cc) (λ g. absurd (omega arith))
token_next-Advances t (c ∷ b) = step-Advances t c b

pub token_first-Advances : (b : Bytes) → Advances b (token_first b)
unfolding token_first
token_first-Advances b =
    digits-Advances (record { token = initial_digit; suffix = 0; number = 0; value = [] }) b
