-- ===== src/Adb/Parse/Keeps.antt =====
-- Every step of the parser keeps the invariant on what a database was trusted for.
use alpine_linux_mac_os.Base.{
  ℕ, Bool, true, false, not, ◌||◌, Bool-cases, Option, some, none, List, [], ◌∷◌, ◌++◌, Bytes,
  length, get_or, ltb, leb, ◌==◌, ==_iff, if◌then◌else◌, ◌≡◌, ◌≢◌, refl, sym, subst, ap, ◌∙◌, inl,
  inr, arith,
}
use mathlib.Core.Option.{some-injective}
use alpine_linux_mac_os.Adb.{header_size}
use alpine_linux_mac_os.Adb.Blocks.{Flow, leave, block_adb, block_sig, block_data, block_max}
use alpine_linux_mac_os.Adb.Blocks.Files.{After}
use alpine_linux_mac_os.Adb.Parse.{
  Error, Code, zero_code, failed, adb_block, adb_version, Key, Trust, Extract, Call, Parse,
  Identity, identity_failed, identity_ignored, identity_matched, identity_generated, elem,
  signature_untrusted, handle_identity, verify_signature, call_back, parse_adb, parse_sig,
  parse_data, parse_block,
}
use alpine_linux_mac_os.Adb.Parse.Evidence.{
  Evidence, by_identity, by_signature, Phase, fresh, opened, Inv, End, Inv-End, call_back-After,
  has_data, adb_call,
}

data IdentityCases (i : Identity) : Type 0 where
  failed_as : (e : Error) → i ≡ identity_failed e → IdentityCases i
  ignored : i ≡ identity_ignored → IdentityCases i
  matched : i ≡ identity_matched → IdentityCases i
  generated : (alg : ℕ) (d : Bytes) → i ≡ identity_generated alg d → IdentityCases i

Identity-cases : (i : Identity) → IdentityCases i
Identity-cases (identity_failed e) = failed_as e refl
Identity-cases identity_ignored = ignored refl
Identity-cases identity_matched = matched refl
Identity-cases (identity_generated alg d) = generated alg d refl

module _ (digest_calc : ℕ → Bytes → Option Bytes) (apk_verify : Key → Bytes → Bytes → Bool)
    (cb : List Call → Code) (t : Option Trust) (schema : ℕ) (ectx : Option Extract) where
  ended :
      (s : Parse)
      → (has_data s.calls ≡ false) × (s.code ≢ zero_code)
      → End digest_calc apk_verify cb t schema ectx s
  ended s (n, z) = record {
    trusted = λ k d p q. absurd (z q);
    checked = λ k. let no : ◌≡◌ {A = Bool} false true = sym n ∙ k in absurd cc;
  }

  stopped :
      (s : Parse) (e : Error)
      → has_data s.calls ≡ false
      → End digest_calc apk_verify cb t schema ectx (record s { code = failed e })
  stopped s e n = ended (record s { code = failed e }) (n, λ q. absurd cc)

  parse_adb_keeps :
      (s : Parse) (b : Bytes)
      → s.allowed ≡ block_adb ∷ []
      → s.calls ≡ []
      → (s.is_trusted ≡ true → (d : Bytes) → Evidence digest_calc apk_verify cb t schema ectx d)
      → After
          (Inv digest_calc apk_verify cb t schema ectx)
          (End digest_calc apk_verify cb t schema ectx)
          (parse_adb digest_calc apk_verify cb t schema ectx s b)
  unfolding parse_adb
  parse_adb_keeps s b a c u =
      let n : has_data s.calls ≡ false = rw c refl in
      let call : s.calls ++ (adb_call b ∷ []) ≡ adb_call b ∷ [] = rw c refl in
      let s' = record s { allowed = block_sig ∷ block_data ∷ []; adb = some b } in
      elim (Bool-cases (ltb (length b) header_size)) [
        | inl e ↦
            rw (parse_adb, e)
              (stopped (record s { allowed = block_sig ∷ block_data ∷ [] }) adb_block n)
        | inr e ↦ elim (Bool-cases (get_or b 0 0 == 0)) [
          | inr f ↦
              rw (parse_adb, e, f)
                (stopped (record s { allowed = block_sig ∷ block_data ∷ [] }) adb_version n)
          | inl f ↦ elim (Identity-cases (handle_identity digest_calc ectx b)) [
            | failed_as g h ↦ rw (parse_adb, e, f, h) (stopped s' g n)
            | ignored h ↦
                rw (parse_adb, e, f, h)
                  (call_back-After digest_calc apk_verify cb t schema ectx s' block_adb b b [] refl
                    refl call (λ k d p. u k d)
                    (λ k. let no : ◌≡◌ {A = Bool} false true = sym n ∙ k in absurd cc)
                    (λ k. absurd cc))
            | matched h ↦
                rw (parse_adb, e, f, h)
                  (call_back-After digest_calc apk_verify cb t schema ectx
                    (record s' { is_trusted = true }) block_adb b b [] refl refl call
                    (λ k d p. by_identity (
                      subst (λ x. handle_identity digest_calc ectx x ≡ identity_matched)
                        (some-injective b d p) h))
                    (λ k. refl) (λ k. refl))
            | generated alg d h ↦
                rw (parse_adb, e, f, h)
                  (call_back-After digest_calc apk_verify cb t schema ectx
                    (record s' { identity = some (alg, d) }) block_adb b b [] refl refl call
                    (λ k d' p. u k d')
                    (λ k. let no : ◌≡◌ {A = Bool} false true = sym n ∙ k in absurd cc)
                    (λ k. absurd cc))
          ]
        ]
      ]

  false_true : {A : Type 0} (b : Bool) → b ≡ false → b ≡ true → A
  false_true b n k = let no : ◌≡◌ {A = Bool} false true = sym n ∙ k in absurd cc

  -- A later block: the call is added behind that with the database.
  later :
      (s : Parse) (type : ℕ) (b d : Bytes) (rest : List Call)
      → s.calls ≡ adb_call d ∷ rest
      → s.calls ++ (record { type = type; payload = b } ∷ [])
        ≡ adb_call d ∷ (rest ++ (record { type = type; payload = b } ∷ []))
  later s type b d rest c = rw c refl

  if-After :
      (b : Bool) (x y : Flow Parse)
      → (b ≡ true
          → After
              (Inv digest_calc apk_verify cb t schema ectx)
              (End digest_calc apk_verify cb t schema ectx)
              x)
      → (b ≡ false
          → After
              (Inv digest_calc apk_verify cb t schema ectx)
              (End digest_calc apk_verify cb t schema ectx)
              y)
      → After
          (Inv digest_calc apk_verify cb t schema ectx)
          (End digest_calc apk_verify cb t schema ectx)
          (if b then x else y)
  if-After true x y h k = h refl
  if-After false x y h k = k refl

  verified :
      (s : Parse) (b d : Bytes) (rest : List Call) (o : Option Bool)
      → Inv digest_calc apk_verify cb t schema ectx s
      → elem block_adb s.allowed ≡ false
      → s.adb ≡ some d
      → s.calls ≡ adb_call d ∷ rest
      → s.is_trusted ≡ false
      → verify_signature digest_calc apk_verify t schema s.adb b ≡ o
      → After
          (Inv digest_calc apk_verify cb t schema ectx)
          (End digest_calc apk_verify cb t schema ectx)
          (elim o [
            | none ↦ leave (record s { is_crashed = true })
            | some r ↦
                call_back digest_calc apk_verify cb t schema ectx
                  (record s { is_trusted = r })
                  block_sig
                  b
          ])
  verified s b d rest none i a p c e f = record {
    trusted = (Inv-End digest_calc apk_verify cb t schema ectx s i).trusted;
    checked = (Inv-End digest_calc apk_verify cb t schema ectx s i).checked;
  }
  verified s b d rest (some r) i a p c e f =
      call_back-After digest_calc apk_verify cb t schema ectx (record s { is_trusted = r })
        block_sig b d _ a p (later s block_sig b d rest c)
        (λ k d' q.
          by_signature b (
            ap (λ x. verify_signature digest_calc apk_verify t schema x b) (sym q) ∙ f ∙ ap some k))
        (λ k. false_true s.is_trusted e (i.checked k)) (λ k. absurd cc)

  parse_sig_keeps :
      (s : Parse) (b d : Bytes) (rest : List Call)
      → Inv digest_calc apk_verify cb t schema ectx s
      → elem block_adb s.allowed ≡ false
      → s.adb ≡ some d
      → s.calls ≡ adb_call d ∷ rest
      → After
          (Inv digest_calc apk_verify cb t schema ectx)
          (End digest_calc apk_verify cb t schema ectx)
          (parse_sig digest_calc apk_verify cb t schema ectx s b)
  unfolding parse_sig
  parse_sig_keeps s b d rest i a p c =
      if-After s.is_trusted _ _
        (λ e.
          call_back-After digest_calc apk_verify cb t schema ectx s block_sig b d _ a p
            (later s block_sig b d rest c) i.trusted i.checked (λ k. absurd cc))
        (λ e. verified s b d rest _ i a p c e refl)

  untrusted_data :
      (s : Parse)
      → Inv digest_calc apk_verify cb t schema ectx s
      → s.is_trusted ≡ false
      → has_data s.calls ≡ false
  untrusted_data s i e = elim (Bool-cases (has_data s.calls)) [
    | inl k ↦ false_true s.is_trusted e (i.checked k)
    | inr k ↦ k
  ]

  parse_data_keeps :
      (s : Parse) (b d : Bytes) (rest : List Call)
      → Inv digest_calc apk_verify cb t schema ectx s
      → s.adb ≡ some d
      → s.calls ≡ adb_call d ∷ rest
      → After
          (Inv digest_calc apk_verify cb t schema ectx)
          (End digest_calc apk_verify cb t schema ectx)
          (parse_data digest_calc apk_verify cb t schema ectx s b)
  unfolding parse_data
  parse_data_keeps s b d rest i p c =
      if-After s.is_trusted _ _
        (λ e.
          call_back-After digest_calc apk_verify cb t schema ectx
            (record s { allowed = block_data ∷ [] }) block_data b d _ refl p
            (later s block_data b d rest c) i.trusted i.checked (λ k. e))
        (λ e.
          stopped (record s { allowed = block_data ∷ [] }) signature_untrusted
            (untrusted_data s i e))

  opened_at :
      (s : Parse) (type : ℕ)
      → Phase digest_calc apk_verify cb t schema ectx s
      → elem type s.allowed ≡ true
      → (type == block_adb) ≡ false
      → (d : Bytes) × (rest : List Call) × (elem block_adb s.allowed ≡ false)
        × (s.adb ≡ some d)
        × (s.calls ≡ adb_call d ∷ rest)
  opened_at s type (fresh a c u) e n =
      let only : (type == block_adb) || false ≡ true = rw a at e in ground arith
  opened_at s type (opened d rest a p c) e n = (d, rest, a, p, c)

  fresh_at :
      (s : Parse)
      → Phase digest_calc apk_verify cb t schema ectx s
      → elem block_adb s.allowed ≡ true
      → (s.allowed ≡ block_adb ∷ [])
        × (s.calls ≡ [])
        × (s.is_trusted ≡ true → (d : Bytes) → Evidence digest_calc apk_verify cb t schema ectx d)
  fresh_at s (fresh a c u) e = (a, c, u)
  fresh_at s (opened d rest a p c) e = false_true _ a e

  pub parse_block_keeps :
      (s : Parse) (type : ℕ) (b : Bytes)
      → Inv digest_calc apk_verify cb t schema ectx s
      → After
          (Inv digest_calc apk_verify cb t schema ectx)
          (End digest_calc apk_verify cb t schema ectx)
          (parse_block digest_calc apk_verify cb t schema ectx s type b)
  unfolding parse_block
  parse_block_keeps s type b i =
      if-After (leb block_max type || not (elem type s.allowed)) _ _
        (λ e. record {
          trusted = λ k d p q. absurd cc;
          checked = (Inv-End digest_calc apk_verify cb t schema ectx s i).checked;
        })
        (λ e.
          let allows : elem type s.allowed ≡ true = ground arith in
          if-After (type == block_adb) _ _
            (λ f.
              let same = (==_iff type block_adb).0 f in
              let (a, c, u) =
                fresh_at s i.phase (subst (λ x. elem x s.allowed ≡ true) same allows) in
              parse_adb_keeps s b a c u)
            (λ f.
              let (d, rest, a, p, c) = opened_at s type i.phase allows f in
              if-After (type == block_sig) _ _ (λ g. parse_sig_keeps s b d rest i a p c)
                (λ g.
                  if-After (type == block_data) _ _ (λ h. parse_data_keeps s b d rest i p c)
                    (λ h.
                      call_back-After digest_calc apk_verify cb t schema ectx s type b d _ a p
                        (later s type b d rest c) i.trusted i.checked (λ k. false_true _ h k)))))
