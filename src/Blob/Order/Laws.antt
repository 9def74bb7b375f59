-- ===== src/Blob/Order/Laws.antt =====
-- `apk_blob_compare` finds equality, and `apk_blob_sort` is the lexicographic order of the bytes.
use alpine_linux_mac_os.Base.{
  ℕ, zero, suc, ◌≤◌, min, compare, Ordering, true, [], ◌∷◌, ◌++◌, ◌≡◌, ◌↔◌, refl, ap, arith, Bytes,
  length, take, ltb, lex, and_then, IsTotalOrder, compare-IsTotalOrder, lex-IsTotalOrder,
  length-append, subst, sym, Bool-cases, inl, inr, take-append_self,
}
use mathlib.Core.Path.{fun_ext}
use alpine_linux_mac_os.Blob.Order.{memcmp, is_eq, blob_compare, blob_sort, blob_starts_with}

memcmp-same_length : (a b : Bytes) → length a ≡ length b → memcmp (length a) a b ≡ lex compare a b
unfolding memcmp
memcmp-same_length [] [] h = refl
memcmp-same_length [] (y ∷ b) h = absurd (omega arith)
memcmp-same_length (x ∷ a) [] h = absurd (omega arith)
memcmp-same_length (x ∷ a) (y ∷ b) h = ground (arith, memcmp-same_length a b)

sort_loop :
    (n : ℕ) (a b : Bytes)
    → n ≡ min (length a) (length b)
    → and_then (memcmp n a b) (compare (length a) (length b)) ≡ lex compare a b
unfolding memcmp
sort_loop zero [] [] h = ground arith
sort_loop zero [] (y ∷ b) h = ground arith
sort_loop zero (x ∷ a) [] h = ground arith
sort_loop zero (x ∷ a) (y ∷ b) h = absurd (omega arith)
sort_loop (suc n) [] b h = absurd (omega arith)
sort_loop (suc n) (x ∷ a) [] h = absurd (omega arith)
sort_loop (suc n) (x ∷ a) (y ∷ b) h = ground (arith, sort_loop n a b (omega arith))

-- `apk_blob_sort` is the lexicographic comparison of the bytes, a proper prefix being less.
pub blob_sort-lex : (a b : Bytes) → blob_sort a b ≡ lex compare a b
unfolding blob_sort
blob_sort-lex a b = sort_loop (min (length a) (length b)) a b refl

lex_refl : (a b : Bytes) → a ≡ b → lex compare a b ≡ Ordering.eq
lex_refl a b e =
    subst (λ x. lex compare a x ≡ Ordering.eq) e
      ((lex-IsTotalOrder compare compare-IsTotalOrder).self a)

-- `apk_blob_sort` returns 0 exactly for equal blobs, changes its sign when its arguments are
-- exchanged, and is transitive.
pub blob_sort-IsTotalOrder : IsTotalOrder blob_sort
blob_sort-IsTotalOrder =
    subst IsTotalOrder (sym (fun_ext λ a. fun_ext λ b. blob_sort-lex a b))
      (lex-IsTotalOrder compare compare-IsTotalOrder)

-- `apk_blob_compare` returns 0 exactly for equal blobs.
pub blob_compare_iff : (a b : Bytes) → (blob_compare a b ≡ Ordering.eq) ↔ (a ≡ b)
unfolding blob_compare
blob_compare_iff a b = (
  λ h.
      (lex-IsTotalOrder compare compare-IsTotalOrder).same a b
        (ground (arith, memcmp-same_length a b)),
  λ e. ground (arith, memcmp-same_length a b, lex_refl a b e, ap length e),
)

memcmp_iff :
    (b a : Bytes)
    → length b ≤ length a
    → (is_eq (memcmp (length b) a b) ≡ true) ↔ (take (length b) a ≡ b)
unfolding memcmp
memcmp_iff [] a h = (λ _. refl, λ _. refl)
memcmp_iff (y ∷ b) [] h = absurd (omega arith)
memcmp_iff (y ∷ b) (x ∷ a) h = let ih = memcmp_iff b a (omega arith) in ground (arith, ih)

-- `apk_blob_starts_with` holds exactly where the first bytes of the blob are the given ones.
pub blob_starts_with_iff :
    (a b : Bytes)
    → (blob_starts_with a b ≡ true) ↔ ((length b ≤ length a) × (take (length b) a ≡ b))
unfolding blob_starts_with
blob_starts_with_iff a b = elim (Bool-cases (ltb (length a) (length b))) [
  | inl short ↦ ground arith
  | inr long ↦ let m = memcmp_iff b a (ground arith) in ground arith
]

pub starts_with-append : (b r : Bytes) → blob_starts_with (b ++ r) b ≡ true
starts_with-append b r =
    (blob_starts_with_iff (b ++ r) b).1 (omega (arith, length-append {0} b r), take-append_self b r)
