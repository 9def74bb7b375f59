-- ===== src/Base/Bits.antt =====
-- Masks and disjoint joins of small numbers, checked at every value.
use Prim.Native.Nat.{ℕ, ◌+◌, ◌*◌, ◌/◌, ◌%◌, ◌<◌, bit_and, bit_or}
use mathlib.Core.Path.{◌≡◌, refl}
use mathlib.Core.Bool.{true, ◌&&◌}
use native.Mathlib.Omega.{arith}
use alpine_linux_mac_os.Base.Tests.{◌==◌, ==_iff, ltb, ltb→lt, all_below, all_below_sound}

mask_table :
    all_below 256 (λ c.
      (bit_and c 0x3 == c % 4)
      && (bit_and c 0xf == c % 16)
      && (bit_and c 0x3f == c % 64)
      && (bit_and c 0xf0 == c / 16 * 16)
      && (bit_and c 0xc0 == c / 64 * 64))
    ≡ true
unfolding all_below
mask_table = refl

pub masks :
    (c : ℕ)
    → c < 256
    → (bit_and c 0x3 ≡ c % 4)
      × (bit_and c 0xf ≡ c % 16)
      × (bit_and c 0x3f ≡ c % 64)
      × (bit_and c 0xf0 ≡ c / 16 * 16)
      × (bit_and c 0xc0 ≡ c / 64 * 64)
masks c h = ground (
  arith,
  all_below_sound 256
      (λ x.
        (bit_and x 0x3 == x % 4)
        && (bit_and x 0xf == x % 16)
        && (bit_and x 0x3f == x % 64)
        && (bit_and x 0xf0 == x / 16 * 16)
        && (bit_and x 0xc0 == x / 64 * 64))
      c mask_table h,
)

or_table : all_below 64 (λ r. all_below 64 (λ d. ltb (bit_or r d) 64)) ≡ true
unfolding all_below
or_table = refl

pub bit_or-lt : (r d : ℕ) → r < 64 → d < 64 → bit_or r d < 64
bit_or-lt r d hr hd = ltb→lt (bit_or r d) 64 (
    all_below_sound 64 (λ y. ltb (bit_or r y) 64) d
      (all_below_sound 64 (λ x. all_below 64 (λ y. ltb (bit_or x y) 64)) r or_table hr) hd)

-- `a << k | b` is a sum where `b` is below 2^k.
module _ (m n k : ℕ)
    (table : all_below m (λ a. all_below n (λ b. bit_or (a * k) b == a * k + b)) ≡ true) where
  or_sum : (a b : ℕ) → a < m → b < n → bit_or (a * k) b ≡ a * k + b
  or_sum a b ha hb = (==_iff (bit_or (a * k) b) (a * k + b)).0 (
      all_below_sound n (λ y. bit_or (a * k) y == a * k + y) b
        (all_below_sound m (λ x. all_below n (λ y. bit_or (x * k) y == x * k + y)) a table ha) hb)

pub or_shl2 : (a b : ℕ) → a < 64 → b < 4 → bit_or (a * 4) b ≡ a * 4 + b
unfolding all_below
or_shl2 = or_sum 64 4 4 refl

pub or_shl4 : (a b : ℕ) → a < 64 → b < 16 → bit_or (a * 16) b ≡ a * 16 + b
unfolding all_below
or_shl4 = or_sum 64 16 16 refl

pub or_shl6 : (a b : ℕ) → a < 4 → b < 64 → bit_or (a * 64) b ≡ a * 64 + b
unfolding all_below
or_shl6 = or_sum 4 64 64 refl

top_table : all_below 64 (λ t. bit_and (t * 64) 0xc0 == t % 4 * 64) ≡ true
unfolding all_below
top_table = refl

pub mask_shl6 : (t : ℕ) → t < 64 → bit_and (t * 64) 0xc0 ≡ t % 4 * 64
mask_shl6 t h =
    (==_iff (bit_and (t * 64) 0xc0) (t % 4 * 64)).0
      (all_below_sound 64 (λ x. bit_and (x * 64) 0xc0 == x % 4 * 64) t top_table h)
