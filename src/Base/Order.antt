-- ===== src/Base/Order.antt =====
-- Three-way comparisons: their laws, and the lexicographic comparison of lists.
use Prim.Native.Nat.{compare, Ordering}
use mathlib.Core.Path.{◌≡◌, refl}
use mathlib.Core.List.{List, [], ◌∷◌}
use native.Mathlib.Omega.{arith}

abbrev pub flip : Ordering → Ordering
flip Ordering.lt = Ordering.gt
flip Ordering.eq = Ordering.eq
flip Ordering.gt = Ordering.lt

-- The second comparison counts where the first finds no difference.
abbrev pub and_then : Ordering → Ordering → Ordering
and_then Ordering.lt o = Ordering.lt
and_then Ordering.eq o = o
and_then Ordering.gt o = Ordering.gt

pub record IsTotalOrder {ℓ} {A : Type ℓ} (c : A → A → Ordering) : Type ℓ where
  pub self : (x : A) → c x x ≡ Ordering.eq
  pub same : (x y : A) → c x y ≡ Ordering.eq → x ≡ y
  pub swap : (x y : A) → c y x ≡ flip (c x y)
  pub trans : (x y z : A) → c x y ≡ Ordering.lt → c y z ≡ Ordering.lt → c x z ≡ Ordering.lt

pub compare-IsTotalOrder : IsTotalOrder compare
compare-IsTotalOrder = record {
  self = λ x. ground arith;
  same = λ x y h. ground arith;
  swap = λ x y. ground arith;
  trans = λ x y z h k. ground arith;
}

module _ {ℓ} {A : Type ℓ} (c : A → A → Ordering) where
  abbrev pub lex : List A → List A → Ordering
  lex [] [] = Ordering.eq
  lex [] (y ∷ ys) = Ordering.lt
  lex (x ∷ xs) [] = Ordering.gt
  lex (x ∷ xs) (y ∷ ys) = and_then (c x y) (lex xs ys)

module _ {ℓ} {A : Type ℓ} (c : A → A → Ordering) (o : IsTotalOrder c) where
  lex_self : (xs : List A) → lex c xs xs ≡ Ordering.eq
  lex_self [] = refl
  lex_self (x ∷ xs) = ground (arith, o.self x, lex_self xs)

  lex_same : (xs ys : List A) → lex c xs ys ≡ Ordering.eq → xs ≡ ys
  lex_same [] [] h = refl
  lex_same [] (y ∷ ys) h = ground arith
  lex_same (x ∷ xs) [] h = ground arith
  lex_same (x ∷ xs) (y ∷ ys) h = ground (arith, o.same x y, lex_same xs ys)

  lex_swap : (xs ys : List A) → lex c ys xs ≡ flip (lex c xs ys)
  lex_swap [] [] = refl
  lex_swap [] (y ∷ ys) = refl
  lex_swap (x ∷ xs) [] = refl
  lex_swap (x ∷ xs) (y ∷ ys) = ground (arith, o.swap x y, lex_swap xs ys)

  lex_trans :
      (xs ys zs : List A)
      → lex c xs ys ≡ Ordering.lt
      → lex c ys zs ≡ Ordering.lt
      → lex c xs zs ≡ Ordering.lt
  lex_trans [] ys [] h k = ground arith
  lex_trans [] ys (z ∷ zs) h k = refl
  lex_trans (x ∷ xs) [] zs h k = ground arith
  lex_trans (x ∷ xs) (y ∷ ys) [] h k = ground arith
  lex_trans (x ∷ xs) (y ∷ ys) (z ∷ zs) h k =
      ground (arith, o.same x y, o.same y z, o.self x, o.trans x y z, lex_trans xs ys zs)

  pub lex-IsTotalOrder : IsTotalOrder (lex c)
  lex-IsTotalOrder = record { self = lex_self; same = lex_same; swap = lex_swap; trans = lex_trans }
