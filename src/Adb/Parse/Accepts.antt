-- ===== src/Adb/Parse/Accepts.antt =====
-- A database that the parser accepts is one that there is a reason to trust.
use alpine_linux_mac_os.Base.{
  ℕ, suc, Bool, true, false, not, Option, Option-cases, some, none, List, ◌∷◌, Bytes, length,
  if◌then◌else◌, ◌≡◌, refl, subst, ◌∙◌, inl, inr,
}
use mathlib.Core.Option.{some-injective}
use alpine_linux_mac_os.Adb.Blocks.{
  Validated, finished, invalid, valid, block_type, block_blob, foreach_block,
}
use alpine_linux_mac_os.Adb.Blocks.Files.{foreach_block_keeps}
use alpine_linux_mac_os.Adb.Parse.{
  Code, zero_code, positive_code, failed, adb_block, Key, Trust, Extract, Call, Parse,
  signature_untrusted, parse_block, parse_start, final_code, parse_end, m_parse,
}
use alpine_linux_mac_os.Adb.Parse.Evidence.{
  Evidence, by_option, fresh, Inv, End, Inv-End, has_data, adb_call,
}
use alpine_linux_mac_os.Adb.Parse.Keeps.{parse_block_keeps}

accepted :
    (c : Code) (blk : Validated) (trusted : Bool) (o : Option Bytes)
    → elim c [
      | failed e ↦ failed e
      | positive_code ↦ failed adb_block
      | zero_code ↦ elim blk [
        | invalid ↦ failed adb_block
        | _ ↦
            if not trusted
            then failed signature_untrusted
            else elim o [ none ↦ failed adb_block | some b ↦ zero_code ]
      ]
    ]
      ≡ zero_code
    → (c ≡ zero_code) × (trusted ≡ true) × ((d : Bytes) × (o ≡ some d))
accepted (failed e) blk trusted o h = absurd cc
accepted positive_code blk trusted o h = absurd cc
accepted zero_code invalid trusted o h = absurd cc
accepted zero_code finished true none h = absurd cc
accepted zero_code finished true (some d) h = (refl, refl, (d, refl))
accepted zero_code finished false o h = absurd cc
accepted zero_code (valid blk) true none h = absurd cc
accepted zero_code (valid blk) true (some d) h = (refl, refl, (d, refl))
accepted zero_code (valid blk) false o h = absurd cc

module _ (digest_calc : ℕ → Bytes → Option Bytes) (apk_verify : Key → Bytes → Bytes → Bool)
    (cb : List Call → Code) (t : Option Trust) (schema : ℕ) (ectx : Option Extract) where
  start_keeps :
      Inv digest_calc apk_verify cb t schema ectx
        (parse_start digest_calc apk_verify cb t schema ectx)
  unfolding parse_start
  start_keeps = record {
    phase = fresh refl refl (λ e. allows t e refl);
    trusted = λ e d q. absurd cc;
    checked = λ e. absurd cc;
  }
    where
      allows :
          (o : Option Trust)
          → elim o [ none ↦ false | some trust ↦ trust.allow_untrusted ] ≡ true
          → t ≡ o
          → (d : Bytes) → Evidence digest_calc apk_verify cb t schema ectx d
      allows none e q d = absurd cc
      allows (some trust) e q d = by_option trust q e

  Accepted : Parse → Parse → Type 0
  Accepted s p =
      (p.code ≡ zero_code
        → (d : Bytes) × (p.adb ≡ some d) × Evidence digest_calc apk_verify cb t schema ectx d)
      × (p.calls ≡ s.calls)

  closing :
      (s p : Parse) (c : Code)
      → (c ≡ zero_code
          → (d : Bytes) × (s.adb ≡ some d) × Evidence digest_calc apk_verify cb t schema ectx d)
      → elim c [
        | zero_code ↦ some (record s { code = zero_code })
        | c' ↦ some (record s { code = c'; adb = none })
      ]
        ≡ some p
      → Accepted s p
  unfolding Accepted
  closing s p zero_code h e =
      subst (Accepted s) (some-injective (record s { code = zero_code }) p e) (h, refl)
  closing s p positive_code h e =
      subst (Accepted s) (some-injective (record s { code = positive_code; adb = none }) p e)
        (λ z. absurd cc, refl)
  closing s p (failed x) h e =
      subst (Accepted s) (some-injective (record s { code = failed x; adb = none }) p e)
        (λ z. absurd cc, refl)

  uncrashed :
      (s p : Parse) (crashed : Bool) (c : Code)
      → (c ≡ zero_code
          → (d : Bytes) × (s.adb ≡ some d) × Evidence digest_calc apk_verify cb t schema ectx d)
      → (if crashed then none else elim c [
        | zero_code ↦ some (record s { code = zero_code })
        | c' ↦ some (record s { code = c'; adb = none })
      ])
        ≡ some p
      → Accepted s p
  uncrashed s p true c h e = absurd cc
  uncrashed s p false c h e = closing s p c h e

  parse_end-Accepted :
      (s : Parse) (blk : Validated) (p : Parse)
      → End digest_calc apk_verify cb t schema ectx s
      → parse_end digest_calc apk_verify cb t schema ectx (s, blk) ≡ some p
      → Accepted s p
  unfolding parse_end final_code
  parse_end-Accepted s blk p i e =
      uncrashed s p s.is_crashed _
        (λ z.
          let (zero, trusted, db) = accepted s.code blk s.is_trusted s.adb z in
          (db.0, db.1, i.trusted trusted db.0 db.1 zero))
        e

  -- Where the parser returns 0, it found a database for which there is evidence: untrusted files
  -- are allowed, its digest is the identity that was asked for, or a signature of it is by a
  -- trusted key. Whatever the parser returns, if the callback got package data, its first call
  -- was with a database for which there is evidence.
  pub m_parse-Evidence :
      (b : Bytes) (p : Parse)
      → m_parse digest_calc apk_verify cb t schema ectx b ≡ some p
      → (p.code ≡ zero_code
          → (d : Bytes) × (p.adb ≡ some d) × Evidence digest_calc apk_verify cb t schema ectx d)
        × (has_data p.calls ≡ true
            → (d : Bytes) × (rest : List Call) × (p.calls ≡ adb_call d ∷ rest)
              × Evidence digest_calc apk_verify cb t schema ectx d)
  unfolding m_parse Accepted
  m_parse-Evidence b p e =
      elim (Option-cases (
        foreach_block
          (λ s pos blk.
            parse_block digest_calc apk_verify cb t schema ectx s (block_type blk)
              (block_blob b pos blk))
          (suc (length b)) b 0 (parse_start digest_calc apk_verify cb t schema ectx))) [
            | inl f ↦ let no : ◌≡◌ {A = Option Parse} none (some p) = rw f at e in absurd cc
            | inr ((s, blk), f) ↦
                let i =
                  foreach_block_keeps (Inv digest_calc apk_verify cb t schema ectx)
                    (End digest_calc apk_verify cb t schema ectx) _
                    (λ s pos blk.
                      parse_block_keeps digest_calc apk_verify cb t schema ectx s (block_type blk)
                        (block_blob b pos blk))
                    (Inv-End digest_calc apk_verify cb t schema ectx) (suc (length b)) b 0 _
                    (s, blk) start_keeps f in
                let (z, calls) = parse_end-Accepted s blk p i (rw f at e) in
                (
                  z,
                  λ k.
                      let (d, rest, c, why) = i.checked (subst (λ x. has_data x ≡ true) calls k) in
                      (d, rest, calls ∙ c, why),
                )
          ]
