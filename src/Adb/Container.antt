-- ===== src/Adb/Container.antt =====
-- `adb_c_header`, `adb_c_adb`, `adb_trust_write_signatures`, `adb_m_blob`, `adb_m_process` and
-- `__adb_m_mmap` of apk-tools/src/adb.c: a file with a database that is signed, and its reading from a
-- file that is mapped to memory.
pub mod Signed
pub mod Accepted
use alpine_linux_mac_os.Base.{
  ◌>>=◌, ℕ, ◌+◌, ◌-◌, ◌%◌, ◌^◌, Bool, true, false, not, ◌&&◌, Option, some, none, List, [], ◌∷◌,
  ◌++◌, map, Bytes, length, take, drop, ltb, leb, ◌==◌, if◌then◌else◌, ◌⊎◌, inl, inr,
}
use alpine_linux_mac_os.Digest.{digest_sha512}
use alpine_linux_mac_os.Adb.{le_bytes, le_value}
use alpine_linux_mac_os.Adb.Blocks.{block_adb, block_sig}
use alpine_linux_mac_os.Adb.Blocks.Files.{c_blocks}
use alpine_linux_mac_os.Adb.Parse.{
  Code, zero_code, failed, adb_header, adb_schema, Key, Trust, Extract, Call, Parse, signed_message,
  digest_adb, m_parse,
}

-- ADB_FORMAT_MAGIC, `sizeof(struct adb_file_header)` and ADB_SCHEMA_IMPLIED.
abbrev format_magic : ℕ
format_magic = 0x2e424441

abbrev file_header_size : ℕ
file_header_size = 8

abbrev schema_implied : ℕ
schema_implied = 0x80000000

-- What `adb_c_header` writes.
unfoldable pub c_header : ℕ → Bytes
c_header schema = le_bytes 4 format_magic ++ le_bytes 4 schema

-- The fields of `struct adb_sign_v0` before `sig`.
unfoldable pub sign_v0 : Key → Bytes
sign_v0 key = 0 ∷ digest_sha512 ∷ key.id

module _ (digest_calc : ℕ → Bytes → Option Bytes) (apk_sign : Key → Bytes → Option Bytes) where
  -- The signatures of `adb_trust_write_signatures`, by each private key.
  unfoldable pub signatures : ℕ → Bytes → List Key → Option (List Bytes)
  signatures schema md [] = some []
  signatures schema md (key ∷ keys) = do
    sig ← apk_sign key (signed_message schema (sign_v0 key) md)
    sigs ← signatures schema md keys
    some ((sign_v0 key ++ sig) ∷ sigs)

  -- `adb_c_adb`: what is written, none where the writing is cancelled. Where the digest of the database
  -- fails, `adb_trust_write_signatures` returns without cancelling it, which nobody looks at.
  unfoldable pub c_adb : ℕ → Bytes → List Key → Option Bytes
  c_adb schema b keys =
      if schema == 0 then none else elim (digest_adb digest_calc digest_sha512 b) [
        | inl e ↦ some (c_header schema ++ c_blocks ((block_adb, b) ∷ []))
        | inr md ↦ do
          sigs ← signatures schema md keys
          some (c_header schema ++ c_blocks ((block_adb, b) ∷ map (λ s. (block_sig, s)) sigs))
      ]

-- `__adb_dummy_cb`.
abbrev pub dummy_cb : List Call → Code
dummy_cb calls = zero_code

-- A database that is opened, its schema, and the calls that the callback got.
pub record Opened : Type 0 where
  pub code : Code
  pub schema : ℕ
  pub adb : Option Bytes
  pub calls : List Call

abbrev not_opened : Code → List Call → Opened
not_opened c calls = record { code = c; schema = 0; adb = none; calls = calls }

module _ (digest_calc : ℕ → Bytes → Option Bytes) (apk_verify : Key → Bytes → Bytes → Bool) where
  -- `adb_m_blob`.
  unfoldable pub m_blob : Bytes → Option Trust → Option Parse
  m_blob b t = m_parse digest_calc apk_verify dummy_cb t 0 none b

  module _ (cb : List Call → Code) (t : Option Trust) (ectx : Option Extract) where
    -- The rest of `__adb_m_mmap` once the schema is known: an error frees the database.
    unfoldable pub mmap_parse : ℕ → Bytes → Option Opened
    mmap_parse schema b = do
      p ← m_parse digest_calc apk_verify cb t schema ectx b
      some (elim p.code [
        | zero_code ↦ record { code = zero_code; schema = schema; adb = p.adb; calls = p.calls }
        | c ↦ not_opened c p.calls
      ])

    -- `adb_m_process` of a file that is mapped to memory, with `__adb_m_mmap`. A header that is refused
    -- leaves the database as it is set up: empty.
    unfoldable pub m_mmap : ℕ → Bytes → Option Opened
    m_mmap expected b =
        if leb schema_implied expected
        then mmap_parse (expected - schema_implied) b
        else if ltb (length b) file_header_size
        then some (not_opened (failed adb_header) [])
        else if not (le_value (take 4 b) == format_magic)
        then some (not_opened (failed adb_header) [])
        else if not (expected == 0) && not (expected == le_value (take 4 (drop 4 b)))
        then some (not_opened (failed adb_schema) [])
        else mmap_parse (le_value (take 4 (drop 4 b))) (drop file_header_size b)
