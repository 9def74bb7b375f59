-- ===== src/Adb/Container/Signed.antt =====
-- A database that is written and signed is accepted where the key is trusted.
use alpine_linux_mac_os.Base.{
  ◌>>=◌, ℕ, zero, suc, ◌≤◌, Bool, true, false, ◌&&◌, Option, some, none, List, [], ◌∷◌, ◌++◌, map,
  Bytes, length, length-append, take, drop, take-append_self, drop-append_self, get_elem?, get_or,
  ltb, ◌≡◌, refl, sym, subst, ap, ◌∙◌, inl, inr, arith, Ordering,
}
use mathlib.Core.Option.{some-injective}
use alpine_linux_mac_os.Blob.Order.Laws.{blob_compare_iff}
use alpine_linux_mac_os.Digest.{digest_sha512}
use alpine_linux_mac_os.Adb.{header_size}
use alpine_linux_mac_os.Adb.Blocks.{finished, Flow, block_adb, block_sig, block_data}
use alpine_linux_mac_os.Adb.Blocks.Files.{walk, c_blocks, AllWritable, foreach_block-c_blocks}
use alpine_linux_mac_os.Adb.Parse.{
  zero_code, Key, Trust, Call, Parse, signed_message, digest_adb, key_verifies, any_key,
  verify_signature, call_back, parse_adb, parse_sig, parse_block, parse_start, final_code,
  parse_end, m_parse, handle_identity,
}
use alpine_linux_mac_os.Adb.Container.{sign_v0, dummy_cb}

-- The state of the parser among the signatures.
abbrev pub signed_state : Bytes → Bool → List Call → Parse
signed_state b u calls = record {
  adb = some b;
  is_trusted = u;
  allowed = block_sig ∷ block_data ∷ [];
  code = zero_code;
  identity = none;
  calls = calls;
  is_crashed = false;
}

abbrev pub signature_blocks : List Bytes → List (ℕ × Bytes)
signature_blocks = map (λ s. (block_sig, s))

module _ (digest_calc : ℕ → Bytes → Option Bytes) (apk_verify : Key → Bytes → Bytes → Bool)
    (trust : Trust) (schema : ℕ) (b : Bytes) where
  abbrev step : Parse → ℕ → Bytes → Flow Parse
  step = parse_block digest_calc apk_verify dummy_cb (some trust) schema none

  -- Once the database is trusted, the further signatures are not looked at.
  walk_trusted :
      (sigs : List Bytes) (calls : List Call)
      → (calls' : List Call) × (walk step (signature_blocks sigs) (signed_state b true calls)
          ≡ (signed_state b true calls', finished))
  unfolding walk parse_block parse_sig call_back
  walk_trusted [] calls = (calls, refl)
  walk_trusted (s ∷ sigs) calls =
      walk_trusted sigs (calls ++ (record { type = block_sig; payload = s } ∷ []))

  -- One signature that verifies is enough.
  walk_signed :
      (u : Bool) (s : Bytes) (sigs : List Bytes) (calls : List Call)
      → verify_signature digest_calc apk_verify (some trust) schema (some b) s ≡ some true
      → (calls' : List Call) × (walk step (signature_blocks (s ∷ sigs)) (signed_state b u calls)
          ≡ (signed_state b true calls', finished))
  unfolding walk parse_block parse_sig call_back
  walk_signed true s sigs calls v = walk_trusted (s ∷ sigs) calls
  walk_signed false s sigs calls v =
      rw (walk, parse_block, parse_sig, v)
        (walk_trusted sigs (calls ++ (record { type = block_sig; payload = s } ∷ [])))

  -- A key among those that are trusted is tried.
  any_key_at :
      (s : Bytes) (keys : List Key) (i : ℕ) (k : Key)
      → get_elem? keys i ≡ some k
      → key_verifies digest_calc apk_verify schema b s k ≡ true
      → any_key digest_calc apk_verify schema b s keys ≡ true
  unfolding any_key
  any_key_at s [] i k e h = absurd cc
  any_key_at s (x ∷ keys) zero k e h = rw (any_key, some-injective x k e, h) refl
  any_key_at s (x ∷ keys) (suc i) k e h = rw (any_key, any_key_at s keys i k e h) (ground arith)

  and_true : (a c : Bool) → a ≡ true → c ≡ true → a && c ≡ true
  and_true a c h k = ground arith

  -- The signature by a key is found to be one of that key.
  signature_verifies :
      (k : Key) (md sig : Bytes)
      → length k.id ≡ 16
      → digest_adb digest_calc digest_sha512 b ≡ inr md
      → apk_verify k (signed_message schema (sign_v0 k) md) sig ≡ true
      → key_verifies digest_calc apk_verify schema b (sign_v0 k ++ sig) k ≡ true
  unfolding key_verifies sign_v0
  signature_verifies k md sig n e v =
      let id = subst (λ j. take j (k.id ++ sig) ≡ k.id) n (take-append_self k.id sig) in
      let rest = subst (λ j. drop j (k.id ++ sig) ≡ sig) n (drop-append_self k.id sig) in
      let same = (blob_compare_iff k.id k.id).1 refl in
      and_true _ _
        (rw id (subst (λ o. elim o [ Ordering.eq ↦ true | _ ↦ false ] ≡ true) (sym same) refl))
        (subst
          (λ o.
            elim o [
              | inl x ↦ false
              | inr m ↦
                  apk_verify k (signed_message schema (take 18 (sign_v0 k ++ sig)) m)
                    (drop 18 (sign_v0 k ++ sig))
            ]
            ≡ true)
          (sym e)
          (rw id (ap (λ x. apk_verify k (signed_message schema (sign_v0 k) md) x) rest ∙ v)))

  -- What `adb_trust_verify_signature` returns for it.
  pub verified :
      (i : ℕ) (k : Key) (md sig : Bytes)
      → length k.id ≡ 16
      → get_elem? trust.trusted_keys i ≡ some k
      → digest_adb digest_calc digest_sha512 b ≡ inr md
      → apk_verify k (signed_message schema (sign_v0 k) md) sig ≡ true
      → verify_signature digest_calc apk_verify (some trust) schema (some b) (sign_v0 k ++ sig)
        ≡ some true
  unfolding verify_signature sign_v0
  verified i k md sig n at e v =
      let any =
        any_key_at (sign_v0 k ++ sig) trust.trusted_keys i k at
          (signature_verifies k md sig n e v) in
      let size = length-append k.id sig in
      let two : ltb (length (sign_v0 k ++ sig)) 2 ≡ false = ground arith in
      let whole : ltb (length (sign_v0 k ++ sig)) 18 ≡ false = ground arith in
      rw (verify_signature, two, whole, any) refl

  -- The state behind the block with the database.
  walk_adb :
      (ps : List (ℕ × Bytes))
      → header_size ≤ length b
      → get_or b 0 0 ≡ 0
      → walk step
          ((block_adb, b) ∷ ps)
          (parse_start digest_calc apk_verify dummy_cb (some trust) schema none)
        ≡ walk step ps
            (signed_state b trust.allow_untrusted (record { type = block_adb; payload = b } ∷ []))
  unfolding walk parse_block parse_adb parse_start call_back handle_identity
  walk_adb ps h z =
      let long : ltb (length b) header_size ≡ false = ground arith in
      rw (walk, parse_block, parse_adb, long, z) refl

  -- The parser accepts the blocks of a database and of signatures, the first of which verifies.
  pub m_parse_signed :
      (s : Bytes) (sigs : List Bytes)
      → AllWritable ((block_adb, b) ∷ signature_blocks (s ∷ sigs))
      → header_size ≤ length b
      → get_or b 0 0 ≡ 0
      → verify_signature digest_calc apk_verify (some trust) schema (some b) s ≡ some true
      → (calls : List Call) × (m_parse digest_calc apk_verify dummy_cb
            (some trust)
            schema
            none
            (c_blocks ((block_adb, b) ∷ signature_blocks (s ∷ sigs)))
          ≡ some (signed_state b true calls))
  unfolding m_parse parse_end final_code
  m_parse_signed s sigs w h z v =
      let ps = (block_adb, b) ∷ signature_blocks (s ∷ sigs) in
      let start = parse_start digest_calc apk_verify dummy_cb (some trust) schema none in
      let (calls, end) =
        walk_signed trust.allow_untrusted s sigs (record { type = block_adb; payload = b } ∷ [])
          v in
      let loop = foreach_block-c_blocks step ps start w in
      let finish = parse_end digest_calc apk_verify dummy_cb (some trust) schema none in
      let walked = walk_adb (signature_blocks (s ∷ sigs)) h z ∙ end in
      (calls, ap (λ x. x >>= finish) loop ∙ ap finish walked)
