-- ===== src/Base/Lists.antt =====
-- Lists measured and indexed by native numbers, and texts as lists of bytes.
use Prim.Native.Nat.{ℕ, zero, suc, ◌+◌, ◌-◌, ◌<◌, min}
use Prim.Native.Char.{code}
use Prim.Native.String.{String}
use mathlib.Core.Path.{◌≡◌, refl, ap}
use mathlib.Core.Logic.{◌≢◌}
use mathlib.Core.List.{List, [], ◌∷◌, ◌++◌}
use mathlib.Core.Option.{Option, none, some}
use native.Mathlib.Omega.{arith}

-- A byte is a number below 256.
abbrev pub Bytes : Type 0
Bytes = List ℕ

abbrev pub codes : String → Bytes
codes String.[] = []
codes (String.◌∷◌ c s) = code c ∷ codes s

-- Holds of every element; it computes to a tuple.
abbrev pub All {ℓ κ} : {A : Type ℓ} → (A → Type κ) → List A → Type κ
All P [] = Unit
All P (x ∷ xs) = P x × All P xs

abbrev pub IsBytes : Bytes → Type 0
IsBytes = All (λ c. c < 256)

module _ {ℓ} {A : Type ℓ} where
  abbrev pub length : List A → ℕ
  length [] = 0
  length (x ∷ xs) = suc (length xs)

  abbrev pub get_elem? : List A → ℕ → Option A
  get_elem? [] i = none
  get_elem? (x ∷ xs) zero = some x
  get_elem? (x ∷ xs) (suc i) = get_elem? xs i

  abbrev pub get_or : List A → ℕ → A → A
  get_or [] i d = d
  get_or (x ∷ xs) zero d = x
  get_or (x ∷ xs) (suc i) d = get_or xs i d

  abbrev pub take : ℕ → List A → List A
  take zero xs = []
  take (suc n) [] = []
  take (suc n) (x ∷ xs) = x ∷ take n xs

  abbrev pub drop : ℕ → List A → List A
  drop zero xs = xs
  drop (suc n) [] = []
  drop (suc n) (x ∷ xs) = drop n xs

  pub length-append : (xs ys : List A) → length (xs ++ ys) ≡ length xs + length ys
  length-append [] ys = omega arith
  length-append (x ∷ xs) ys = omega (arith, length-append xs ys)

  pub length-drop : (n : ℕ) (xs : List A) → length (drop n xs) ≡ length xs - n
  length-drop zero xs = omega arith
  length-drop (suc n) [] = omega arith
  length-drop (suc n) (x ∷ xs) = omega (arith, length-drop n xs)

  pub length-take : (n : ℕ) (xs : List A) → length (take n xs) ≡ min n (length xs)
  length-take zero xs = omega arith
  length-take (suc n) [] = omega arith
  length-take (suc n) (x ∷ xs) = omega (arith, length-take n xs)

  pub take-append-drop : (n : ℕ) (xs : List A) → take n xs ++ drop n xs ≡ xs
  take-append-drop zero xs = refl
  take-append-drop (suc n) [] = refl
  take-append-drop (suc n) (x ∷ xs) = ap (λ l. x ∷ l) (take-append-drop n xs)

  pub take-append_self : (xs ys : List A) → take (length xs) (xs ++ ys) ≡ xs
  take-append_self [] ys = refl
  take-append_self (x ∷ xs) ys = ap (λ l. x ∷ l) (take-append_self xs ys)

  pub drop-append_self : (xs ys : List A) → drop (length xs) (xs ++ ys) ≡ ys
  drop-append_self [] ys = refl
  drop-append_self (x ∷ xs) ys = drop-append_self xs ys

module _ {ℓ} {A : Type ℓ} where
  -- A write out of bounds changes nothing.
  abbrev pub set : List A → ℕ → A → List A
  set [] i v = []
  set (x ∷ xs) zero v = v ∷ xs
  set (x ∷ xs) (suc i) v = x ∷ set xs i v

  abbrev pub replicate : ℕ → A → List A
  replicate zero a = []
  replicate (suc n) a = a ∷ replicate n a

  pub length-replicate : (n : ℕ) (a : A) → length (replicate n a) ≡ n
  length-replicate zero a = refl
  length-replicate (suc n) a = ap suc (length-replicate n a)

  pub get_or-replicate : (n i : ℕ) (a : A) → get_or (replicate n a) i a ≡ a
  get_or-replicate zero i a = refl
  get_or-replicate (suc n) zero a = refl
  get_or-replicate (suc n) (suc i) a = get_or-replicate n i a

  pub length-set : (xs : List A) (i : ℕ) (v : A) → length (set xs i v) ≡ length xs
  length-set [] i v = refl
  length-set (x ∷ xs) zero v = refl
  length-set (x ∷ xs) (suc i) v = ap suc (length-set xs i v)

  pub get_or-set_self :
      (xs : List A) (i : ℕ) (v d : A) → i < length xs → get_or (set xs i v) i d ≡ v
  get_or-set_self [] i v d h = elim h [ ]
  get_or-set_self (x ∷ xs) zero v d h = refl
  get_or-set_self (x ∷ xs) (suc i) v d h = get_or-set_self xs i v d (omega arith)

  pub get_or-set_ne :
      (xs : List A) (i j : ℕ) (v d : A) → i ≢ j → get_or (set xs i v) j d ≡ get_or xs j d
  get_or-set_ne [] i j v d h = refl
  get_or-set_ne (x ∷ xs) zero zero v d h = absurd (h refl)
  get_or-set_ne (x ∷ xs) zero (suc j) v d h = refl
  get_or-set_ne (x ∷ xs) (suc i) zero v d h = refl
  get_or-set_ne (x ∷ xs) (suc i) (suc j) v d h = get_or-set_ne xs i j v d (λ e. h (ap suc e))

pub All-set {ℓ} :
    {A : Type ℓ} (P : A → Type 0) (xs : List A) (i : ℕ) (v : A)
    → All P xs
    → P v
    → All P (set xs i v)
All-set P [] i v w p = tt
All-set P (x ∷ xs) zero v w p = (p, w.1)
All-set P (x ∷ xs) (suc i) v w p = (w.0, All-set P xs i v w.1 p)

pub All-get {ℓ} :
    {A : Type ℓ} (P : A → Type 0) (xs : List A) (i : ℕ) (d : A) → All P xs → P d → P (get_or xs i d)
All-get P [] i d w p = p
All-get P (x ∷ xs) zero d w p = w.0
All-get P (x ∷ xs) (suc i) d w p = All-get P xs i d w.1 p

pub All-append {ℓ} :
    {A : Type ℓ} (P : A → Type 0) (xs ys : List A) → All P xs → All P ys → All P (xs ++ ys)
All-append P [] ys w v = v
All-append P (x ∷ xs) ys w v = (w.0, All-append P xs ys w.1 v)

pub All-replicate {ℓ} : {A : Type ℓ} (P : A → Type 0) (n : ℕ) (a : A) → P a → All P (replicate n a)
All-replicate P zero a p = tt
All-replicate P (suc n) a p = (p, All-replicate P n a p)
