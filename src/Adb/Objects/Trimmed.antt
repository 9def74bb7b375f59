-- ===== src/Adb/Objects/Trimmed.antt =====
-- The elements that are not set at the end of an object are left out, and the others are written.
use alpine_linux_mac_os.Base.{
  ℕ, zero, suc, ◌*◌, ◌^◌, ◌≤◌, ◌<◌, Bool-cases, List, [], ◌∷◌, All, length, length-append, get_or,
  ◌==◌, ==_iff, ◌≡◌, refl, inl, inr, arith,
}
use alpine_linux_mac_os.Adb.{le_bytes}
use alpine_linux_mac_os.Adb.Layout.{length-le_bytes, le_value-le32}
use alpine_linux_mac_os.Adb.Read.{words}
use alpine_linux_mac_os.Adb.Objects.{trim, words_bytes}

-- What is left out is not set.
pub trim_lem :
    (obj : List ℕ) (n : ℕ)
    → (trim obj n ≤ n)
      × (1 ≤ n → 1 ≤ trim obj n)
      × ((i : ℕ) → trim obj n ≤ i → i < n → get_or obj i 0 ≡ 0)
unfolding trim
trim_lem obj zero = (omega arith, λ h. h, λ i h k. absurd (omega arith))
trim_lem obj (suc zero) = (omega arith, λ h. h, λ i h k. absurd (omega arith))
trim_lem obj (suc (suc n)) =
    let (le, one, unset) = trim_lem obj (suc n) in
    elim (Bool-cases (get_or obj (suc n) 0 == 0)) [
      | inr e ↦ rw (trim, e) (omega arith, λ h. omega arith, λ i h k. absurd (omega arith))
      | inl e ↦
          rw (trim, e)
            (
              omega arith,
              λ h. one (omega arith),
              λ i h k. elim (Bool-cases (i == suc n)) [
                | inl f ↦ rw ((==_iff i (suc n)).0 f) ((==_iff (get_or obj (suc n) 0) 0).0 e)
                | inr f ↦ unset i h (ground arith)
              ],
            )
    ]

abbrev pub AllWords : List ℕ → Type 0
AllWords = All (λ v. v < 2 ^ 32)

pub length-words_bytes : (vs : List ℕ) → length (words_bytes vs) ≡ 4 * length vs
unfolding words_bytes
length-words_bytes [] = refl
length-words_bytes (v ∷ vs) =
    let both = length-append (le_bytes 4 v) (words_bytes vs) in
    let four = length-le_bytes 4 v in omega (arith, length-words_bytes vs)

-- An array of values is read back.
pub words-words_bytes : (vs : List ℕ) → AllWords vs → words (length vs) (words_bytes vs) ≡ vs
unfolding words words_bytes le_bytes
words-words_bytes [] w = refl
words-words_bytes (v ∷ vs) w = rw (words, le_value-le32 v w.0, words-words_bytes vs w.1) refl
