-- ===== src/Adb/Container/Accepted.antt =====
-- A file that is written with signatures is opened with the database that was written.
use alpine_linux_mac_os.Base.{
  ℕ, ◌+◌, ◌^◌, ◌≤◌, ◌<◌, Bool, true, false, not, ◌&&◌, Bool-cases, Option, Option-cases, some, none,
  List, [], ◌∷◌, ◌++◌, All, Bytes, length, length-append, get_elem?, get_or, ltb, leb, ◌==◌, ◌≡◌,
  ◌⊎◌, refl, sym, subst, inl, inr, arith,
}
use mathlib.Core.Option.{some-injective}
use alpine_linux_mac_os.Digest.{digest_sha512}
use alpine_linux_mac_os.Adb.{le_bytes, header_size}
use alpine_linux_mac_os.Adb.Layout.{le_value-le32}
use alpine_linux_mac_os.Adb.Blocks.Files.{AllWritable}
use alpine_linux_mac_os.Adb.Parse.{zero_code, Key, Trust, Call, signed_message, digest_adb}
use alpine_linux_mac_os.Adb.Container.{
  c_header, sign_v0, signatures, c_adb, dummy_cb, mmap_parse, m_mmap,
}
use alpine_linux_mac_os.Adb.Container.Signed.{signature_blocks, verified, m_parse_signed}

module _ (digest_calc : ℕ → Bytes → Option Bytes) (apk_verify : Key → Bytes → Bytes → Bool) where
  -- The header of a file is that which was written, and the rest is parsed.
  mmap_header :
      (trust : Trust) (expected schema : ℕ) (rest : Bytes)
      → schema < 2 ^ 32
      → expected < 2 ^ 31
      → (expected ≡ 0) ⊎ (expected ≡ schema)
      → m_mmap digest_calc apk_verify dummy_cb (some trust) none expected (c_header schema ++ rest)
        ≡ mmap_parse digest_calc apk_verify dummy_cb (some trust) none schema rest
  unfolding m_mmap c_header le_bytes
  mmap_header trust expected schema rest s x e =
      let named : leb 0x80000000 expected ≡ false = ground arith in
      let same : not (expected == 0) && not (expected == schema) ≡ false = ground arith in
      let long : ltb (length (c_header schema ++ rest)) 8 ≡ false = ground arith in
      rw (m_mmap, named, long, le_value-le32 schema s, le_value-le32 0x2e424441 (omega arith), same)
        refl

module _ (digest_calc : ℕ → Bytes → Option Bytes) (apk_sign : Key → Bytes → Option Bytes)
    (apk_verify : Key → Bytes → Bytes → Bool)
    (verifies : (k : Key) (m s : Bytes) → apk_sign k m ≡ some s → apk_verify k m s ≡ true)
    (short : (k : Key) (m s : Bytes) → apk_sign k m ≡ some s → length s ≤ 2030) where
  abbrev pub AllKeys : List Key → Type 0
  AllKeys = All (λ k. length k.id ≡ 16)

  -- What signing with a list of keys yields.
  signed_keys :
      (schema : ℕ) (md : Bytes) (k : Key) (keys : List Key) (sigs : List Bytes)
      → signatures digest_calc apk_sign schema md (k ∷ keys) ≡ some sigs
      → (sig : Bytes) × (rest : List Bytes) × (apk_sign k (signed_message schema (sign_v0 k) md)
          ≡ some sig)
        × (signatures digest_calc apk_sign schema md keys ≡ some rest)
        × (sigs ≡ (sign_v0 k ++ sig) ∷ rest)
  unfolding signatures
  signed_keys schema md k keys sigs e =
      elim (Option-cases (apk_sign k (signed_message schema (sign_v0 k) md))) [
        | inl f ↦ let no : ◌≡◌ {A = Option (List Bytes)} none (some sigs) = rw f at e in absurd cc
        | inr (sig, f) ↦ elim (Option-cases (signatures digest_calc apk_sign schema md keys)) [
          | inl g ↦
              let no : ◌≡◌ {A = Option (List Bytes)} none (some sigs) = rw (f, g) at e in absurd cc
          | inr (rest, g) ↦ (sig, rest, f, g, sym (some-injective _ sigs (rw (f, g) at e)))
        ]
      ]

  signatures_writable :
      (schema : ℕ) (md : Bytes) (keys : List Key) (sigs : List Bytes)
      → AllKeys keys
      → signatures digest_calc apk_sign schema md keys ≡ some sigs
      → AllWritable (signature_blocks sigs)
  unfolding signatures sign_v0
  signatures_writable schema md [] sigs n e =
      subst (λ x. AllWritable (signature_blocks x)) (some-injective [] sigs e) tt
  signatures_writable schema md (k ∷ keys) sigs n e =
      let (sig, rest, f, g, h) = signed_keys schema md k keys sigs e in
      let size = short k _ sig f in
      let all = length-append k.id sig in
      let id = n.0 in
      subst (λ x. AllWritable (signature_blocks x)) (sym h)
        ((omega arith, omega arith), signatures_writable schema md keys rest n.1 g)

  -- What `adb_c_adb` writes with private keys, the first of which is trusted, `adb_m_process`
  -- opens from memory where no extraction asks for an identity: the database and its schema are those
  -- that were written. This supposes that the database has a digest, that a signature that was made
  -- is accepted and has at most 2030 bytes, that keys have ids of 16 bytes, that the database has a
  -- header with version 0 and is shorter than 2 ^ 64 - 24 bytes, that the callback returns 0, and
  -- that the schema has 32 bits and is the one that is expected, or any is.
  pub m_mmap-c_adb :
      (trust : Trust) (i expected schema : ℕ) (b md : Bytes) (k : Key) (keys : List Key)
      (file : Bytes)
      → get_elem? trust.trusted_keys i ≡ some k
      → AllKeys (k ∷ keys)
      → schema < 2 ^ 32
      → expected < 2 ^ 31
      → (expected ≡ 0) ⊎ (expected ≡ schema)
      → header_size ≤ length b
      → length b + 24 < 2 ^ 64
      → get_or b 0 0 ≡ 0
      → digest_adb digest_calc digest_sha512 b ≡ inr md
      → c_adb digest_calc apk_sign schema b (k ∷ keys) ≡ some file
      → (calls : List Call) × (m_mmap digest_calc apk_verify dummy_cb
            (some trust)
            none
            expected
            file
          ≡ some (record { code = zero_code; schema = schema; adb = some b; calls = calls }))
  unfolding c_adb mmap_parse
  m_mmap-c_adb trust i expected schema b md k keys file at ids s x want h w z f e =
      elim (Bool-cases (schema == 0)) [
        | inl zero_schema ↦
            let no : ◌≡◌ {A = Option Bytes} none (some file) = rw zero_schema at e in absurd cc
        | inr nonzero ↦ elim (Option-cases (signatures digest_calc apk_sign schema md (k ∷ keys))) [
          | inl g ↦
              let no : ◌≡◌ {A = Option Bytes} none (some file) = rw (nonzero, f, g) at e in
              absurd cc
          | inr (sigs, g) ↦
              let (sig, rest, signed, g', shape) = signed_keys schema md k keys sigs g in
              let w' =
                subst (λ x. AllWritable (signature_blocks x)) shape
                  (signatures_writable schema md (k ∷ keys) sigs ids g) in
              let v =
                verified digest_calc apk_verify trust schema b i k md sig ids.0 at f
                  (verifies k _ sig signed) in
              let (calls, parse) =
                m_parse_signed digest_calc apk_verify trust schema b (sign_v0 k ++ sig) rest
                  ((omega arith, w), w') h z v in
              let written = some-injective _ file (rw (nonzero, f, g) at e) in
              (
                calls,
                rw
                    (
                      sym written,
                      shape,
                      mmap_header digest_calc apk_verify trust expected schema _ s x want,
                      parse,
                    )
                    refl,
              )
        ]
      ]
