-- ===== src/Adb/Parse.antt =====
-- `adb_digest_adb`, `__adb_handle_identity`, `adb_trust_verify_signature`, `__adb_m_parse`,
-- `adb_m_blob` and `__adb_m_mmap` of apk-tools/src/adb.c: a database is found among the blocks of a file,
-- and is accepted where its digest or a signature is.
-- The parameters stand for the cryptography: `digest_calc` is `apk_digest_calc`, none where it fails, and
-- `apk_verify` tells whether a signature of a message by a key is valid.
pub mod Evidence
pub mod Keeps
pub mod Accepts
pub mod Total
use alpine_linux_mac_os.Base.{
  ◌>>=◌, ℕ, suc, ◌+◌, ◌%◌, ◌^◌, Bool, true, false, not, ◌&&◌, ◌||◌, Option, some, none, List, [],
  ◌∷◌, ◌++◌, Bytes, length, take, drop, get_or, ltb, leb, ◌==◌, if◌then◌else◌, Ordering, ◌⊎◌, inl,
  inr,
}
use alpine_linux_mac_os.Blob.Order.{blob_compare}
use alpine_linux_mac_os.Digest.{
  alg_len, digest_none, digest_sha1, digest_sha256, digest_sha512, digest_sha256_160,
}
use alpine_linux_mac_os.Adb.{le_bytes, le_value, header_size}
use alpine_linux_mac_os.Adb.Blocks.{
  Block, Validated, finished, invalid, valid, Flow, proceed, leave, block_type, block_blob,
  foreach_block, block_adb, block_sig, block_data, block_max,
}

pub data Error : Type 0 where
  adb_header adb_version adb_schema adb_block adb_integrity signature_untrusted crypto_not_supported
        crypto_error :
      Error
  callback : ℕ → Error

-- A return code: zero, a positive number, or an error.
pub data Code : Type 0 where
  zero_code positive_code : Code
  failed : Error → Code

-- `struct apk_pkey`: the key is what `apk_verify` takes it for.
pub record Key : Type 0 where
  pub id : Bytes
  pub key : ℕ

-- `struct apk_trust`.
pub record Trust : Type 0 where
  pub allow_untrusted : Bool
  pub trusted_keys : List Key

-- The part of `struct apk_extract_ctx` that is about the identity. `generates` tells that
-- `generate_identity` is not NULL.
pub record Extract : Type 0 where
  pub generates : Bool
  pub generate_alg : ℕ
  pub verify_alg : ℕ
  pub verify_digest : Bytes

-- One call of the callback: the type of the block and what it holds.
pub record Call : Type 0 where
  pub type : ℕ
  pub payload : Bytes

-- The variables of the parser, with the identity that was generated and the calls that were made.
-- `is_crashed` tells that a NULL trust was read.
pub record Parse : Type 0 where
  pub adb : Option Bytes
  pub is_trusted : Bool
  pub allowed : List ℕ
  pub code : Code
  pub identity : Option (ℕ × Bytes)
  pub calls : List Call
  pub is_crashed : Bool

abbrev pub elem : ℕ → List ℕ → Bool
elem n [] = false
elem n (m ∷ ms) = (n == m) || elem n ms

abbrev bytes_equal : Bytes → Bytes → Bool
bytes_equal a b = elim (blob_compare a b) [ Ordering.eq ↦ true | _ ↦ false ]

-- `sizeof(struct adb_sign_hdr)` and `sizeof(struct adb_sign_v0)`.
abbrev sign_hdr_size : ℕ
sign_hdr_size = 2

abbrev sign_v0_size : ℕ
sign_v0_size = 18

-- The message that is signed: `adb_digest_v0_signature` of the schema, the fields of the signature
-- before `sig`, and the digest of the database.
abbrev pub signed_message : ℕ → Bytes → Bytes → Bytes
signed_message schema sig0 md = le_bytes 4 schema ++ (sig0 ++ md)

-- What `__adb_handle_identity` returns, beside the identity that it generates.
pub data Identity : Type 0 where
  identity_failed : Error → Identity
  identity_ignored identity_matched : Identity
  identity_generated : ℕ → Bytes → Identity

module _ (digest_calc : ℕ → Bytes → Option Bytes) where
  -- `adb_digest_adb`. The digests that `vfy` keeps are those of the only database of a file, so that a
  -- digest that is calculated again is the same.
  unfoldable pub digest_adb : ℕ → Bytes → Error ⊎ Bytes
  digest_adb hash_alg b =
      let alg = if hash_alg == digest_sha256_160 then digest_sha256 else hash_alg in
      if (alg == digest_sha256) || (alg == digest_sha512)
      then elim (digest_calc alg b) [
        | none ↦ inl crypto_error
        | some d ↦ inr (take (alg_len hash_alg) d)
      ]
      else inl crypto_not_supported

  -- `__adb_handle_identity`.
  unfoldable pub handle_identity : Option Extract → Bytes → Identity
  handle_identity none b = identity_ignored
  handle_identity (some ectx) b =
      let alg = if ectx.generate_alg == 0 then ectx.verify_alg else ectx.generate_alg in
      if (alg == digest_none) || (alg == digest_sha1)
      then identity_ignored
      else elim (digest_adb alg b) [
        | inl e ↦ identity_failed e
        | inr calculated ↦
            if ectx.generates
            then identity_generated alg calculated
            else if bytes_equal ectx.verify_digest calculated
            then identity_matched
            else if ectx.verify_alg == digest_sha256_160
            then identity_ignored
            else identity_failed adb_integrity
      ]

module _ (digest_calc : ℕ → Bytes → Option Bytes) (apk_verify : Key → Bytes → Bytes → Bool) where
  -- The body of the loop over the keys.
  unfoldable pub key_verifies : ℕ → Bytes → Bytes → Key → Bool
  key_verifies schema b sigb key =
      bytes_equal (take 16 (drop sign_hdr_size sigb)) key.id
      && elim (digest_adb digest_calc (get_or sigb 1 0) b) [
        | inl e ↦ false
        | inr md ↦
            apk_verify key (signed_message schema (take sign_v0_size sigb) md)
              (drop sign_v0_size sigb)
      ]

  unfoldable pub any_key : ℕ → Bytes → Bytes → List Key → Bool
  any_key schema b sigb [] = false
  any_key schema b sigb (key ∷ keys) = key_verifies schema b sigb key || any_key schema b sigb keys

  -- `adb_trust_verify_signature`: whether it returns 0. Without a trust, none where it reads the keys.
  unfoldable pub verify_signature : Option Trust → ℕ → Option Bytes → Bytes → Option Bool
  verify_signature t schema none sigb = some false
  verify_signature t schema (some b) sigb =
      if ltb (length sigb) sign_hdr_size
      then some false
      else if not (get_or sigb 0 0 == 0)
      then some false
      else if ltb (length sigb) sign_v0_size
      then some false
      else elim t [ none ↦ none | some trust ↦ some (any_key schema b sigb trust.trusted_keys) ]

module _ (digest_calc : ℕ → Bytes → Option Bytes) (apk_verify : Key → Bytes → Bytes → Bool)
    (cb : List Call → Code) (t : Option Trust) (schema : ℕ) (ectx : Option Extract) where
  -- The end of the loop's body: what the callback returns depends on the calls so far.
  unfoldable pub call_back : Parse → ℕ → Bytes → Flow Parse
  call_back s type b =
      let calls = s.calls ++ (record { type = type; payload = b } ∷ []) in
      let s' = record s { calls = calls; code = cb calls } in
      elim (cb calls) [ failed e ↦ leave s' | _ ↦ proceed s' ]

  -- `case ADB_BLOCK_ADB`.
  unfoldable pub parse_adb : Parse → Bytes → Flow Parse
  parse_adb s b =
      let s' = record s { allowed = block_sig ∷ block_data ∷ []; adb = some b } in
      if ltb (length b) header_size
      then leave (record s { allowed = block_sig ∷ block_data ∷ []; code = failed adb_block })
      else if not (get_or b 0 0 == 0)
      then leave (record s { allowed = block_sig ∷ block_data ∷ []; code = failed adb_version })
      else elim (handle_identity digest_calc ectx b) [
        | identity_failed e ↦ leave (record s' { code = failed e })
        | identity_ignored ↦ call_back s' block_adb b
        | identity_matched ↦ call_back (record s' { is_trusted = true }) block_adb b
        | identity_generated alg d ↦ call_back (record s' { identity = some (alg, d) }) block_adb b
      ]

  -- `case ADB_BLOCK_SIG`.
  unfoldable pub parse_sig : Parse → Bytes → Flow Parse
  parse_sig s b =
      if s.is_trusted
      then call_back s block_sig b
      else elim (verify_signature digest_calc apk_verify t schema s.adb b) [
        | none ↦ leave (record s { is_crashed = true })
        | some r ↦ call_back (record s { is_trusted = r }) block_sig b
      ]

  -- `case ADB_BLOCK_DATA`.
  unfoldable pub parse_data : Parse → Bytes → Flow Parse
  parse_data s b =
      let s' = record s { allowed = block_data ∷ [] } in
      if s.is_trusted
      then call_back s' block_data b
      else leave (record s' { code = failed signature_untrusted })

  -- The body of the loop.
  unfoldable pub parse_block : Parse → ℕ → Bytes → Flow Parse
  parse_block s type b =
      if leb block_max type || not (elem type s.allowed)
      then leave (record s { code = failed adb_block })
      else if type == block_adb
      then parse_adb s b
      else if type == block_sig
      then parse_sig s b
      else if type == block_data
      then parse_data s b
      else call_back s type b

  -- The variables before the loop.
  unfoldable pub parse_start : Parse
  parse_start = record {
    adb = none;
    is_trusted = elim t [ none ↦ false | some trust ↦ trust.allow_untrusted ];
    allowed = block_adb ∷ [];
    code = zero_code;
    identity = none;
    calls = [];
    is_crashed = false;
  }

  -- The code behind the label `err`, where the loop ended with `blk`.
  unfoldable pub final_code : Parse → Validated → Code
  final_code s blk = elim s.code [
    | failed e ↦ failed e
    | positive_code ↦ failed adb_block
    | zero_code ↦ elim blk [
      | invalid ↦ failed adb_block
      | _ ↦
          if not s.is_trusted
          then failed signature_untrusted
          else elim s.adb [ none ↦ failed adb_block | some b ↦ zero_code ]
    ]
  ]

  unfoldable pub parse_end : Parse × Validated → Option Parse
  parse_end (s, blk) = if s.is_crashed then none else elim (final_code s blk) [
    | zero_code ↦ some (record s { code = zero_code })
    | c ↦ some (record s { code = c; adb = none })
  ]

  -- `__adb_m_parse`; none where it crashes or does not end.
  unfoldable pub m_parse : Bytes → Option Parse
  m_parse b = do
    ended ←
        foreach_block (λ s pos blk. parse_block s (block_type blk) (block_blob b pos blk))
          (suc (length b)) b 0 parse_start
    parse_end ended
