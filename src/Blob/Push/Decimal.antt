-- ===== src/Blob/Push/Decimal.antt =====
-- A number that `apk_blob_push_uint` prints is read back by `apk_blob_pull_uint`, in every radix.
use Prim.Native.Nat.{◌≤◌}
use native.Mathlib.Nat.{div-add-mod, pow-suc}
use alpine_linux_mac_os.Base.{
  ℕ, zero, suc, ◌+◌, ◌*◌, ◌/◌, ◌%◌, ◌^◌, ◌<◌, [], ◌∷◌, ◌++◌, ◌≡◌, ◌≢◌, refl, Bytes, length, ◌==◌,
  arith, Bool-cases, inl, inr, ◌∙◌, ◌⊎◌,
}
use alpine_linux_mac_os.Blob.Push.{xd, digit_loop, uint_text}
use alpine_linux_mac_os.Blob.Pull.{dx, uint_loop, pull_uint}

-- Every digit that is printed decodes to its value.
pub dx-xd : (v : ℕ) → v < 16 → dx (xd v) ≡ v
unfolding dx xd
dx-xd v h = ground arith

xd-pos : (v : ℕ) → v < 16 → 0 < xd v
unfolding xd
xd-pos v h = ground arith

module _ (radix : ℕ) (low : 2 ≤ radix) (high : radix ≤ 16) where
  mod_low : (v : ℕ) → v % radix < radix
  mod_low v = omega arith

  quotient_le : (v : ℕ) → v / radix ≤ v
  quotient_le v = omega arith

  shrinks : (v fuel : ℕ) → v ≤ suc fuel → v ≢ 0 → v / radix ≤ fuel
  shrinks v fuel k h = grind (arith, div-add-mod v radix)

  -- Reading the last digit behind the value of the others gives the whole value.
  read_last :
      (v : ℕ) (out : Bytes)
      → v < 2 ^ 64
      → uint_loop (xd (v % radix) ∷ out) radix (v / radix) ≡ uint_loop out radix v
  unfolding uint_loop
  read_last v out h =
      let d : v % radix < 16 = omega (arith, mod_low v) in
      ground (arith, dx-xd (v % radix) d, xd-pos (v % radix) d, mod_low v, div-add-mod v radix)

  read-digit_loop :
      (fuel v : ℕ) (out : Bytes)
      → v ≤ fuel
      → v < 2 ^ 64
      → uint_loop (digit_loop fuel v radix out) radix 0 ≡ uint_loop out radix v
  unfolding digit_loop
  read-digit_loop zero v out k h = ground arith
  read-digit_loop (suc fuel) v out k h = elim (Bool-cases (v == 0)) [
    | inl e ↦ ground arith
    | inr e ↦ rw e (
        read-digit_loop fuel (v / radix) (xd (v % radix) ∷ out) (shrinks v fuel k (ground arith))
          (omega (arith, quotient_le v))
        ∙ read_last v out h)
  ]

-- Where `apk_blob_pull_uint` stops: at the end, at a NUL, or at no digit of the radix.
abbrev pub Stops : ℕ → Bytes → Type 0
Stops radix [] = Unit
Stops radix (c ∷ b) = (c ≡ 0) ⊎ (radix ≤ dx c)

stop_here : (radix v : ℕ) (rest : Bytes) → Stops radix rest → uint_loop rest radix v ≡ (v, rest)
unfolding uint_loop
stop_here radix v [] h = refl
stop_here radix v (c ∷ b) h = ground arith

digit_loop-append :
    (fuel v radix : ℕ) (out rest : Bytes)
    → digit_loop fuel v radix (out ++ rest) ≡ digit_loop fuel v radix out ++ rest
unfolding digit_loop
digit_loop-append zero v radix out rest = refl
digit_loop-append (suc fuel) v radix out rest =
    ground (arith, digit_loop-append fuel (v / radix) radix (xd (v % radix) ∷ out) rest)

-- A 64-bit number that is printed in a radix from 2 to 16 is read back, and the rest of the blob is
-- what follows the print, if that does not begin with another digit.
pub pull_uint-uint_text :
    (radix v : ℕ) (rest : Bytes)
    → 2 ≤ radix
    → radix ≤ 16
    → v < 2 ^ 64
    → Stops radix rest
    → pull_uint (uint_text v radix ++ rest) radix ≡ (v, rest)
unfolding pull_uint uint_text
pull_uint-uint_text radix v rest low high h s = elim (Bool-cases (v == 0)) [
  | inl e ↦ let z : v ≡ 0 = ground arith in rw z (ground (arith, stop_here radix 0 rest s))
  | inr e ↦
      rw (e, ← digit_loop-append v v radix [] rest)
        (read-digit_loop radix low high v v rest (omega arith) h ∙ stop_here radix v rest s)
]

halved : (k v radix : ℕ) → 2 ≤ radix → v < 2 ^ suc k → v / radix < 2 ^ k
halved k v radix low h =
    let e : 2 ^ suc k ≡ 2 ^ k * 2 = pow-suc 2 k in grind (arith, div-add-mod v radix)

length-digit_loop :
    (k fuel v radix : ℕ) (out : Bytes)
    → 2 ≤ radix
    → v < 2 ^ k
    → length (digit_loop fuel v radix out) ≤ k + length out
unfolding digit_loop
length-digit_loop k zero v radix out low h = omega arith
length-digit_loop zero (suc fuel) v radix out low h = ground arith
length-digit_loop (suc k) (suc fuel) v radix out low h = ground (
  arith,
  length-digit_loop k fuel (v / radix) radix (xd (v % radix) ∷ out) low (halved k v radix low h),
)

-- The print of a 64-bit number fits the array `buf[64]` of `apk_blob_push_uint`, in every radix of
-- 2 or more.
pub length-uint_text : (v radix : ℕ) → 2 ≤ radix → v < 2 ^ 64 → length (uint_text v radix) ≤ 64
unfolding uint_text
length-uint_text v radix low h = ground (arith, length-digit_loop 64 v v radix [] low h)
