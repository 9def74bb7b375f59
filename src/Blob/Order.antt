-- ===== src/Blob/Order.antt =====
-- `apk_blob_compare`, `apk_blob_sort` and the tests of prefix and suffix in blob.c. Only the sign of
-- an `int` result is read by the callers, so the result is an `Ordering`.
pub mod Laws
use alpine_linux_mac_os.Base.{
  ℕ, zero, suc, ◌-◌, min, compare, Ordering, Bool, true, false, [], ◌∷◌, Bytes, length, drop, ltb,
  and_then, if◌then◌else◌,
}

-- memcmp(a, b, n), for n at most the length of both.
unfoldable pub memcmp : ℕ → Bytes → Bytes → Ordering
memcmp (suc n) (x ∷ a) (y ∷ b) = and_then (compare x y) (memcmp n a b)
memcmp _ _ _ = Ordering.eq

abbrev pub is_eq : Ordering → Bool
is_eq Ordering.eq = true
is_eq _ = false

unfoldable pub blob_compare : Bytes → Bytes → Ordering
unfolding memcmp
blob_compare a b = elim (compare (length a) (length b)) [
  | Ordering.eq ↦ memcmp (length a) a b
  | Ordering.lt ↦ Ordering.lt
  | Ordering.gt ↦ Ordering.gt
]

unfoldable pub blob_sort : Bytes → Bytes → Ordering
unfolding memcmp
blob_sort a b = and_then (memcmp (min (length a) (length b)) a b) (compare (length a) (length b))

unfoldable pub blob_starts_with : Bytes → Bytes → Bool
unfolding memcmp
blob_starts_with a b = if ltb (length a) (length b) then false else is_eq (memcmp (length b) a b)

unfoldable pub blob_ends_with : Bytes → Bytes → Bool
unfolding memcmp
blob_ends_with a b =
    if ltb (length a) (length b)
    then false
    else is_eq (memcmp (length b) (drop (length a - length b) a) b)
