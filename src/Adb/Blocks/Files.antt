-- ===== src/Adb/Blocks/Files.antt =====
-- The loop over the blocks of a memory: it ends, and over blocks that were written it visits these.
use alpine_linux_mac_os.Base.{
  ℕ, zero, suc, ◌+◌, ◌^◌, ◌≤◌, ◌<◌, false, Bool-cases, some, List, [], ◌∷◌, ◌++◌, All, append-nil,
  append_assoc, Bytes, length, length-append, ◌==◌, ◌≡◌, ◌⊎◌, refl, sym, subst, ◌∙◌, inl, inr,
  arith,
}
use mathlib.Core.Option.{some-injective}
use alpine_linux_mac_os.Adb.Blocks.{
  Block, Validated, finished, invalid, valid, Flow, proceed, leave, block_init, rawsize, block_size,
  block_type, block_validate, block_at, block_blob, c_block, foreach_block,
}
use alpine_linux_mac_os.Adb.Blocks.Header.{Writable, block_init-type, block_init-bytes}
use alpine_linux_mac_os.Adb.Blocks.Enumerate.{
  block_validate-valid, block_validate-c_block, c_block_size, chosen,
}

-- No header in the memory names a size that wraps around when it is rounded up.
abbrev pub Unwrapped : Bytes → Type 0
Unwrapped b = (pos : ℕ) → pos < length b → rawsize (block_at b pos) + 8 < 2 ^ 64

Validated-cases :
    (v : Validated) → (v ≡ finished) ⊎ (v ≡ invalid) ⊎ ((blk : Block) × (v ≡ valid blk))
Validated-cases finished = inl refl
Validated-cases invalid = inr (inl refl)
Validated-cases (valid blk) = inr (inr (blk, refl))

Flow-cases {ℓ} : {S : Type ℓ} (f : Flow S) → ((s : S) × (f ≡ proceed s)) ⊎ ((s : S) × (f ≡ leave s))
Flow-cases (proceed s) = inl (s, refl)
Flow-cases (leave s) = inr (s, refl)

validated_at :
    (b : Bytes) (pos : ℕ) (blk : Block) → block_validate b pos ≡ valid blk → block_at b pos ≡ blk
unfolding block_validate
validated_at b pos blk e = (chosen _ _ _ blk e).1

validated_before :
    (b : Bytes) (pos : ℕ) (blk : Block)
    → block_validate b pos ≡ valid blk
    → (pos == length b) ≡ false
unfolding block_validate
validated_before b pos blk e = elim (Bool-cases (pos == length b)) [
  | inl k ↦
      let no : ◌≡◌ {A = Validated} finished (valid blk) = rw (block_validate, k) at e in absurd cc
  | inr k ↦ k
]

module _ {ℓ} {S : Type ℓ} where
  -- Each block takes 8 bytes: a count of one more than the bytes that are left suffices.
  pub foreach_block_total :
      (body : S → ℕ → Block → Flow S) (k : ℕ) (b : Bytes) (pos : ℕ) (s : S)
      → Unwrapped b
      → pos ≤ length b
      → length b < k + pos
      → (r : S × Validated) × (foreach_block body k b pos s ≡ some r)
  unfolding foreach_block
  foreach_block_total body zero b pos s u h l = absurd (omega arith)
  foreach_block_total body (suc k) b pos s u h l = elim (Validated-cases (block_validate b pos)) [
    | inl e ↦ rw (foreach_block, e) ((s, finished), refl)
    | inr (inl e) ↦ rw (foreach_block, e) ((s, invalid), refl)
    | inr (inr (blk, e)) ↦ elim (Flow-cases (body s pos blk)) [
      | inr (t, f) ↦ rw (foreach_block, e, f) ((t, valid blk), refl)
      | inl (t, f) ↦
          let at = validated_at b pos blk e in
          let before = validated_before b pos blk e in
          let wide : rawsize blk + 8 < 2 ^ 64 =
            subst (λ x. rawsize x + 8 < 2 ^ 64) at (u pos (ground arith)) in
          let (inside, eight, header, raw, whole) = block_validate-valid b pos blk h wide e in
          rw (foreach_block, e, f)
            (foreach_block_total body k b (pos + block_size blk) t u (omega arith) (omega arith))
    ]
  ]

  -- A loop over blocks that are given by their types and payloads.
  unfoldable pub walk : (S → ℕ → Bytes → Flow S) → List (ℕ × Bytes) → S → S × Validated
  walk step [] s = (s, finished)
  walk step ((type, p) ∷ ps) s = elim (step s type p) [
    | proceed t ↦ walk step ps t
    | leave t ↦ (t, valid (block_init type (length p)))
  ]

-- The blocks that `adb_c_block` writes one after another.
unfoldable pub c_blocks : List (ℕ × Bytes) → Bytes
c_blocks [] = []
c_blocks ((type, p) ∷ ps) = c_block type p ++ c_blocks ps

abbrev pub AllWritable : List (ℕ × Bytes) → Type 0
AllWritable = All (λ b. Writable b.0 (length b.1))

length-c_blocks : (ps : List (ℕ × Bytes)) → AllWritable ps → length ps ≤ length (c_blocks ps)
unfolding c_blocks
length-c_blocks [] w = omega arith
length-c_blocks ((type, p) ∷ ps) w =
    let size = c_block_size type p w.0 in
    let some_bytes = block_init-bytes type (length p) w.0 in
    let both = length-append (c_block type p) (c_blocks ps) in omega (arith, length-c_blocks ps w.1)

at_end : (b : Bytes) (pos : ℕ) → pos ≡ length b → block_validate b pos ≡ finished
unfolding block_validate
at_end b pos e = ground arith

module _ {ℓ} {S : Type ℓ} (step : S → ℕ → Bytes → Flow S) where
  abbrev pub read_step : Bytes → S → ℕ → Block → Flow S
  read_step b s pos blk = step s (block_type blk) (block_blob b pos blk)

  walks :
      (ps : List (ℕ × Bytes)) (k : ℕ) (pre b : Bytes) (s : S)
      → AllWritable ps
      → length ps < k
      → b ≡ pre ++ c_blocks ps
      → foreach_block (read_step b) k b (length pre) s ≡ some (walk step ps s)
  unfolding foreach_block walk c_blocks
  walks ps zero pre b s w h q = absurd (omega arith)
  walks [] (suc k) pre b s w h q =
      rw (foreach_block, at_end b (length pre) (rw (q, append-nil) refl)) refl
  walks ((type, p) ∷ ps) (suc k) pre b s w h q =
      let (v, payload) = block_validate-c_block type p pre (c_blocks ps) w.0 in
      let v' : block_validate b (length pre) ≡ valid (block_init type (length p)) = rw q v in
      let payload' : block_blob b (length pre) (block_init type (length p)) ≡ p = rw q payload in
      let size = c_block_size type p w.0 in
      let end = length-append pre (c_block type p) in
      elim (Flow-cases (step s type p)) [
        | inr (t, f) ↦
            rw (foreach_block, walk, v', block_init-type type (length p) w.0, payload', f) refl
        | inl (t, f) ↦
            let rest =
              walks ps k (pre ++ c_block type p) b t w.1 (omega arith)
                (q ∙ sym (append_assoc pre (c_block type p) (c_blocks ps))) in
            rw
              (
                foreach_block,
                walk,
                v',
                block_init-type type (length p) w.0,
                payload',
                f,
                sym size,
                sym end,
              )
              rest
      ]

  -- Over blocks that `adb_c_block` wrote, of types below 3 and shorter than 2 ^ 64 - 24 bytes,
  -- the loop makes one step for each block, in their order, with its type and payload, until a
  -- step leaves it.
  pub foreach_block-c_blocks :
      (ps : List (ℕ × Bytes)) (s : S)
      → AllWritable ps
      → foreach_block (read_step (c_blocks ps)) (suc (length (c_blocks ps))) (c_blocks ps) 0 s
        ≡ some (walk step ps s)
  foreach_block-c_blocks ps s w =
      walks ps (suc (length (c_blocks ps))) [] (c_blocks ps) s w
        (omega (arith, length-c_blocks ps w)) refl

module _ {ℓ} {S : Type ℓ} (Inv End : S → Type 0) where
  -- One predicate holds of a state with which the loop goes on, the other of one that leaves it.
  abbrev pub After : Flow S → Type 0
  After (proceed s) = Inv s
  After (leave s) = End s

  pub foreach_block_keeps :
      (body : S → ℕ → Block → Flow S)
      → ((s : S) (pos : ℕ) (blk : Block) → Inv s → After (body s pos blk))
      → ((s : S) → Inv s → End s)
      → (k : ℕ) (b : Bytes) (pos : ℕ) (s : S) (r : S × Validated) → Inv s
      → foreach_block body k b pos s ≡ some r
      → End r.0
  unfolding foreach_block
  foreach_block_keeps body keeps ends zero b pos s r i e = absurd cc
  foreach_block_keeps body keeps ends (suc k) b pos s r i e =
      elim (Validated-cases (block_validate b pos)) [
        | inl v ↦
            let done = some-injective (s, finished) r (rw (foreach_block, v) at e) in
            subst (λ x. End x.0) done (ends s i)
        | inr (inl v) ↦
            let done = some-injective (s, invalid) r (rw (foreach_block, v) at e) in
            subst (λ x. End x.0) done (ends s i)
        | inr (inr (blk, v)) ↦ elim (Flow-cases (body s pos blk)) [
          | inl (t, f) ↦
              foreach_block_keeps body keeps ends k b (pos + block_size blk) t r
                (subst After f (keeps s pos blk i)) (rw (foreach_block, v, f) at e)
          | inr (t, f) ↦
              let done = some-injective (t, valid blk) r (rw (foreach_block, v, f) at e) in
              subst (λ x. End x.0) done (subst After f (keeps s pos blk i))
        ]
      ]
