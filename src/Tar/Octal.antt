-- ===== src/Tar/Octal.antt =====
-- The octal fields of apk-tools/src/tar.c: what `put_octal` writes is what `get_octal` reads.
use alpine_linux_mac_os.Base.{
  ℕ, zero, suc, ◌+◌, ◌-◌, ◌*◌, ◌/◌, ◌%◌, ◌^◌, ◌<◌, Bool, true, false, [], ◌∷◌, ◌++◌, Bytes, length,
  replicate, length-replicate, length-append, leb, ◌==◌, ◌≡◌, refl, ap, ◌∙◌, arith, Bool-cases, inl,
  inr,
}
use alpine_linux_mac_os.Blob.Pull.{dx, uint_loop, pull_uint}
use alpine_linux_mac_os.Tar.{skip_blanks, get_octal, put_digits, put_octal}

dx_digit : (r : ℕ) → r < 8 → dx (b'0' + r) ≡ r
unfolding dx
dx_digit r h = ground arith

digit_step :
    (q r : ℕ) (b : Bytes)
    → r < 8
    → q * 8 + r < 2 ^ 64
    → uint_loop ((b'0' + r) ∷ b) 8 q ≡ uint_loop b 8 (q * 8 + r)
unfolding uint_loop
digit_step q r b h k =
    let d = dx_digit r h in
    let e : ((b'0' + r) == 0) ≡ false = ground arith in
    let l : leb 8 r ≡ false = ground arith in
    let m : (q * 8 + r) % 2 ^ 64 ≡ q * 8 + r = omega arith in rw (uint_loop, d, e, l, m) refl

zeros_step : (n : ℕ) (b : Bytes) → uint_loop (replicate n b'0' ++ b) 8 0 ≡ uint_loop b 8 0
zeros_step zero b = refl
zeros_step (suc n) b =
    digit_step 0 0 (replicate n b'0' ++ b) (omega arith) (omega arith) ∙ zeros_step n b

digits_read :
    (k v : ℕ) (b : Bytes)
    → v < 8 ^ k
    → v < 2 ^ 64
    → uint_loop (put_digits k v b) 8 0 ≡ uint_loop b 8 v
unfolding put_digits
digits_read zero v b h l = let e : 0 ≡ v = ground arith in ap (uint_loop b 8) e
digits_read (suc k) v b h l = elim (Bool-cases (v == 0)) [
  | inl e ↦
      let z : 0 ≡ v = ground arith in
      rw (put_digits, e) (zeros_step (suc k) b ∙ ap (uint_loop b 8) z)
  | inr e ↦
      let small : v / 8 < 8 ^ k = omega arith in
      let value : v / 8 * 8 + v % 8 ≡ v = omega arith in
      rw (put_digits, e)
        (digits_read k (v / 8) ((b'0' + v % 8) ∷ b) small (omega arith)
          ∙ (digit_step (v / 8) (v % 8) b (omega arith) (omega arith) ∙ ap (uint_loop b 8) value))
]

-- The positions of a field that hold digits.
abbrev pub digits_of : ℕ → Bool → ℕ
digits_of l true = l - 1
digits_of l false = l

-- A value that has as many octal digits as the field has room for, and 64 bits, is read back from the
-- field that `put_octal` fills, and the field is well formed.
pub get_octal-put_octal :
    (l v : ℕ) (has_zero : Bool)
    → v < 8 ^ digits_of l has_zero
    → v < 2 ^ 64
    → get_octal (put_octal l v has_zero) ≡ (v, true)
unfolding get_octal put_octal pull_uint skip_blanks uint_loop
get_octal-put_octal l v true h k =
    ap (λ (r : ℕ × Bytes). (r.0, length (skip_blanks r.1) == 0))
      (digits_read (l - 1) v (0 ∷ []) h k)
get_octal-put_octal l v false h k =
    ap (λ (r : ℕ × Bytes). (r.0, length (skip_blanks r.1) == 0)) (digits_read l v [] h k)

length-put_digits : (k v : ℕ) (b : Bytes) → length (put_digits k v b) ≡ k + length b
unfolding put_digits
length-put_digits zero v b = omega arith
length-put_digits (suc k) v b = elim (Bool-cases (v == 0)) [
  | inl e ↦
      rw (put_digits, e)
        (length-append (replicate (suc k) b'0') b
          ∙ ap (λ n. n + length b) (length-replicate (suc k) b'0'))
  | inr e ↦ rw (put_digits, e) (omega (arith, length-put_digits k (v / 8) ((b'0' + v % 8) ∷ b)))
]

pub length-put_octal : (l v : ℕ) (z : Bool) → 0 < l → length (put_octal l v z) ≡ l
unfolding put_octal
length-put_octal l v true h = omega (arith, length-put_digits (l - 1) v (0 ∷ []))
length-put_octal l v false h = omega (arith, length-put_digits l v [])
