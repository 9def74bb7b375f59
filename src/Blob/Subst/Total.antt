-- ===== src/Blob/Subst/Total.antt =====
-- The loop of `apk_blob_subst` ends.
use alpine_linux_mac_os.Base.{
  ℕ, zero, suc, ◌+◌, ◌≤◌, ◌<◌, Option, some, none, ◌++◌, Bytes, codes, length, ◌≡◌, ◌≢◌, arith,
  Option-cases, inl, inr, length-append, ap,
}
use alpine_linux_mac_os.Blob.{Sink, buffer}
use alpine_linux_mac_os.Blob.Search.{blob_split}
use alpine_linux_mac_os.Blob.Search.Splits.{blob_split_sound}
use alpine_linux_mac_os.Blob.Push.{push_blob}
use alpine_linux_mac_os.Blob.Subst.{Result, ok, err, subst_key, subst_loop, blob_subst}

-- The second part of a split is shorter than the text by the separator.
split_shorter :
    (b split l r : Bytes) → blob_split b split ≡ some (l, r) → length r + length split ≤ length b
split_shorter b split l r e =
    let whole = ap length ((blob_split_sound b split l r e).0) in
    ground (arith, length-append l (split ++ r), length-append split r)

module _ (res : Bytes → Sink → Result Sink) (base : ℕ) where
  -- The loop on what a round leaves.
  next_total :
      (fuel : ℕ) (rest : Bytes)
      → ((to : Sink) → subst_loop res base fuel rest to ≢ none)
      → (r : Result Sink)
      → elim r as (λ _. Option (Result Bytes)) [
        | err e ↦ some (err e)
        | ok to ↦ subst_loop res base fuel rest to
      ]
        ≢ none
  next_total fuel rest h (err e) = ground arith
  next_total fuel rest h (ok to) = h to

  loop_total :
      (fuel : ℕ) (fmt : Bytes) (to : Sink)
      → length fmt < fuel
      → subst_loop res base fuel fmt to ≢ none
  unfolding subst_loop
  loop_total zero fmt to h = ground arith
  loop_total (suc fuel) fmt to h = elim (Option-cases (blob_split fmt (codes "${"))) [
    | inl e ↦ rw (subst_loop, e) (ground arith)
    | inr ((prefix, key), e) ↦ elim (Option-cases (push_blob to prefix)) [
      | inl p ↦ rw (subst_loop, e, p) (ground arith)
      | inr (o, p) ↦ elim (Option-cases (blob_split key (codes "}"))) [
        | inl q ↦ rw (subst_loop, e, p, q) (ground arith)
        | inr ((name, rest), q) ↦
            let k = split_shorter fmt (codes "${") prefix key e in
            let l = split_shorter key (codes "}") name rest q in
            rw (subst_loop, e, p, q)
              (next_total fuel rest (λ to'. loop_total fuel rest to' (omega arith))
                (subst_key res base name o))
      ]
    ]
  ]

  -- For every callback, array, address and format, the loop of `apk_blob_subst` ends: the rounds that the
  -- model allows are enough.
  pub blob_subst_total : (size : ℕ) (fmt : Bytes) → blob_subst res base size fmt ≢ none
  unfolding blob_subst
  blob_subst_total size fmt = loop_total (length fmt + 1) fmt (buffer size) (omega arith)
