-- ===== src/Adb/Layout.antt =====
-- The layout of numbers and values in the data of apk-tools/src/adb.h.
use alpine_linux_mac_os.Base.{
  ℕ, zero, suc, ◌+◌, ◌*◌, ◌/◌, ◌^◌, ◌≤◌, ◌<◌, max, length, ◌≡◌, refl, ap, arith,
}
use Prim.Native.Nat.{digits, bit_or-bitwise}
use alpine_linux_mac_os.Adb.{val, le_bytes, le_value}

pub length-le_bytes : (k n : ℕ) → length (le_bytes k n) ≡ k
unfolding le_bytes
length-le_bytes zero n = refl
length-le_bytes (suc k) n = ap suc (length-le_bytes k (n / 256))

-- 256 to the power of k, and 2 to the power of k times a number.
abbrev bytes_end : ℕ → ℕ
bytes_end zero = 1
bytes_end (suc k) = 256 * bytes_end k

abbrev shl : ℕ → ℕ → ℕ
shl zero t = t
shl (suc k) t = 2 * shl k t

le_value-le_bytes : (k n : ℕ) → n < bytes_end k → le_value (le_bytes k n) ≡ n
unfolding le_bytes le_value
le_value-le_bytes zero n h = omega arith
le_value-le_bytes (suc k) n h = omega (arith, le_value-le_bytes k (n / 256) (omega arith))

pub le_value-le8 : (n : ℕ) → n < 2 ^ 8 → le_value (le_bytes 1 n) ≡ n
le_value-le8 = le_value-le_bytes 1

pub le_value-le16 : (n : ℕ) → n < 2 ^ 16 → le_value (le_bytes 2 n) ≡ n
le_value-le16 = le_value-le_bytes 2

pub le_value-le32 : (n : ℕ) → n < 2 ^ 32 → le_value (le_bytes 4 n) ≡ n
le_value-le32 = le_value-le_bytes 4

pub le_value-le64 : (n : ℕ) → n < 2 ^ 64 → le_value (le_bytes 8 n) ≡ n
le_value-le64 = le_value-le_bytes 8

-- A disjunction is a sum where the digits of the one end before those of the other.
digits-sum : (k n t a b : ℕ) → a ≡ shl k t → a ≤ n → b < shl k 1 → digits (λ c. c) max n a b ≡ a + b
digits-sum k zero t zero b e h l = omega arith
digits-sum k zero t (suc a) b e h l = omega arith
digits-sum k (suc n) t zero b e h l = omega arith
digits-sum zero (suc n) t (suc a) b e h l =
    rw (digits-sum zero n (suc a / 2) (suc a / 2) (b / 2) refl (omega arith) (omega arith))
      (omega arith)
digits-sum (suc k) (suc n) t (suc a) b e h l =
    rw (digits-sum k n t (suc a / 2) (b / 2) (omega arith) (omega arith) (omega arith))
      (omega arith)

-- A type of the upper 4 bits joined with a number of the lower 28.
pub val_sum : (t n : ℕ) → t < 16 → n < 2 ^ 28 → val (t * 2 ^ 28) n ≡ t * 2 ^ 28 + n
val_sum t n ht hn =
    rw
      (
        bit_or-bitwise (t * 2 ^ 28) n,
        digits-sum 28 (t * 2 ^ 28) t (t * 2 ^ 28) n (omega arith) (omega arith) (omega arith),
      )
      (omega arith)
