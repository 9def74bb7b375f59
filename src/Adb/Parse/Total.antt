-- ===== src/Adb/Parse/Total.antt =====
-- The parser ends, and reads no trust that is missing.
use alpine_linux_mac_os.Base.{
  ◌>>=◌, ℕ, suc, Bool, true, false, not, ◌||◌, Option, some, none, List, [], ◌∷◌, ◌++◌, Bytes,
  length, get_or, ltb, leb, ◌==◌, if◌then◌else◌, ◌≡◌, refl, ap, ◌∙◌, arith,
}
use alpine_linux_mac_os.Adb.{header_size}
use alpine_linux_mac_os.Adb.Blocks.{
  Validated, Flow, proceed, leave, block_type, block_blob, block_adb, block_sig, block_data,
  block_max,
}
use alpine_linux_mac_os.Adb.Blocks.Files.{After, foreach_block_keeps}
use alpine_linux_mac_os.Adb.Parse.{
  Code, zero_code, positive_code, failed, Key, Trust, Extract, Call, Parse, Identity,
  identity_failed, identity_ignored, identity_matched, identity_generated, elem, handle_identity,
  verify_signature, call_back, parse_adb, parse_sig, parse_data, parse_block, parse_start,
  final_code, parse_end, m_parse,
}
use alpine_linux_mac_os.Adb.Blocks.Files.{Unwrapped, foreach_block_total}

-- The state was not left by a crash.
abbrev Sane : Parse → Type 0
Sane s = s.is_crashed ≡ false

module _ (digest_calc : ℕ → Bytes → Option Bytes) (apk_verify : Key → Bytes → Bytes → Bool)
    (cb : List Call → Code) (trust : Trust) (schema : ℕ) (ectx : Option Extract) where
  called :
      (s : Parse) (type : ℕ) (b : Bytes)
      → Sane s
      → After Sane Sane (call_back digest_calc apk_verify cb (some trust) schema ectx s type b)
  unfolding call_back
  called s type b h = by_code (cb calls) (record s { calls = calls; code = cb calls }) h
    where
      calls : List Call
      calls = s.calls ++ (record { type = type; payload = b } ∷ [])

      by_code :
          (c : Code) (s' : Parse)
          → Sane s'
          → After Sane Sane (elim c [ failed e ↦ leave s' | _ ↦ proceed s' ])
      by_code zero_code s' k = k
      by_code positive_code s' k = k
      by_code (failed e) s' k = k

  if-Sane :
      (b : Bool) (x y : Flow Parse)
      → After Sane Sane x
      → After Sane Sane y
      → After Sane Sane (if b then x else y)
  if-Sane true x y h k = h
  if-Sane false x y h k = k

  identified :
      (i : Identity) (s : Parse) (b : Bytes)
      → Sane s
      → After Sane Sane (elim i [
        | identity_failed e ↦ leave (record s { code = failed e })
        | identity_ignored ↦
            call_back digest_calc apk_verify cb (some trust) schema ectx s block_adb b
        | identity_matched ↦
            call_back digest_calc apk_verify cb
              (some trust)
              schema
              ectx
              (record s { is_trusted = true })
              block_adb
              b
        | identity_generated alg d ↦
            call_back digest_calc apk_verify cb
              (some trust)
              schema
              ectx
              (record s { identity = some (alg, d) })
              block_adb
              b
      ])
  identified (identity_failed e) s b h = h
  identified identity_ignored s b h = called s block_adb b h
  identified identity_matched s b h = called (record s { is_trusted = true }) block_adb b h
  identified (identity_generated alg d) s b h =
      called (record s { identity = some (alg, d) }) block_adb b h

  verify_total :
      (o : Option Bytes) (b : Bytes)
      → (r : Bool) × (verify_signature digest_calc apk_verify (some trust) schema o b ≡ some r)
  unfolding verify_signature
  verify_total none b = (false, refl)
  verify_total (some d) b =
      answer (ltb (length b) 2) (not (get_or b 0 0 == 0)) (ltb (length b) 18) _
    where
      answer :
          (x y z w : Bool)
          → (r : Bool) × ((if x
                then some false
                else if y
                then some false
                else if z
                then some false
                else some w)
              ≡ some r)
      answer true y z w = (false, refl)
      answer false true z w = (false, refl)
      answer false false true w = (false, refl)
      answer false false false w = (w, refl)

  by_answer :
      (o : Option Bool) (r : Bool) (s : Parse) (b : Bytes)
      → o ≡ some r
      → Sane s
      → After Sane Sane (elim o [
        | none ↦ leave (record s { is_crashed = true })
        | some r' ↦
            call_back digest_calc apk_verify cb
              (some trust)
              schema
              ectx
              (record s { is_trusted = r' })
              block_sig
              b
      ])
  by_answer none r s b e h = absurd cc
  by_answer (some x) r s b e h = called (record s { is_trusted = x }) block_sig b h

  parse_block-Sane :
      (s : Parse) (type : ℕ) (b : Bytes)
      → Sane s
      → After Sane Sane (parse_block digest_calc apk_verify cb (some trust) schema ectx s type b)
  unfolding parse_block parse_adb parse_sig parse_data
  parse_block-Sane s type b h =
      let (r, e) = verify_total s.adb b in
      if-Sane (leb block_max type || not (elem type s.allowed)) _ _ h (
        if-Sane (type == block_adb) _ _
          (if-Sane (ltb (length b) header_size) _ _ h (
            if-Sane (not (get_or b 0 0 == 0)) _ _ h (
              identified (handle_identity digest_calc ectx b)
                (record s { allowed = block_sig ∷ block_data ∷ []; adb = some b }) b h)))
          (if-Sane (type == block_sig) _ _
            (if-Sane s.is_trusted _ _ (called s block_sig b h) (by_answer _ r s b e h))
            (if-Sane (type == block_data) _ _
              (if-Sane s.is_trusted _ _
                (called (record s { allowed = block_data ∷ [] }) block_data b h) h)
              (called s type b h))))

  -- Where a trust is given and no header in the data names a size of 2 ^ 64 - 8 or more, the
  -- parser returns.
  pub m_parse_total :
      (b : Bytes)
      → Unwrapped b
      → (p : Parse) × (m_parse digest_calc apk_verify cb (some trust) schema ectx b ≡ some p)
  unfolding m_parse parse_end parse_start
  m_parse_total b u =
      let ((s, blk), e) =
        foreach_block_total
          (λ s pos blk.
            parse_block digest_calc apk_verify cb (some trust) schema ectx s (block_type blk)
              (block_blob b pos blk))
          (suc (length b)) b 0 (parse_start digest_calc apk_verify cb (some trust) schema ectx) u
          (omega arith) (omega arith) in
      let sane =
        foreach_block_keeps Sane Sane _
          (λ s pos blk h. parse_block-Sane s (block_type blk) (block_blob b pos blk) h) (λ s h. h)
          (suc (length b)) b 0 _ (s, blk) refl e in
      let (p, f) = ends s sane blk in
      (p, ap (λ x. x >>= parse_end digest_calc apk_verify cb (some trust) schema ectx) e ∙ f)
    where
      sane_end :
          (c : Bool) (o : Option Parse)
          → c ≡ false
          → (p : Parse) × (o ≡ some p)
          → (p : Parse) × ((if c then none else o) ≡ some p)
      sane_end true o h k = absurd cc
      sane_end false o h k = k

      returned :
          (s : Parse) (c : Code)
          → (p : Parse) × (elim c [
            | zero_code ↦ some (record s { code = zero_code })
            | c' ↦ some (record s { code = c'; adb = none })
          ]
              ≡ some p)
      returned s zero_code = (_, refl)
      returned s positive_code = (_, refl)
      returned s (failed e) = (_, refl)

      ends :
          (s : Parse)
          → Sane s
          → (blk : Validated)
          → (p : Parse) × (parse_end digest_calc apk_verify cb (some trust) schema ectx (s, blk)
              ≡ some p)
      ends s h blk =
          sane_end s.is_crashed _ h
            (returned s (final_code digest_calc apk_verify cb (some trust) schema ectx s blk))
