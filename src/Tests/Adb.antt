-- ===== src/Tests/Adb.antt =====
-- Databases: files as bytes, values that are written and read, and instances of the theorems.
use alpine_linux_mac_os.Base.{
  ℕ, ◌+◌, ◌^◌, ◌<◌, ◌≤◌, Bool, true, false, Option, none, some, List, [], ◌∷◌, ◌++◌, Bytes, length,
  replicate, ◌==◌, ==_iff, all_below, all_below_sound, ltb, ltb→lt, suc, ◌-◌, ◌≡◌, subst, refl, inr,
  arith,
}
use mathlib.Core.Option.{some-injective}
use alpine_linux_mac_os.Digest.{alg_len, digest_sha512}
use alpine_linux_mac_os.Adb.{le_value}
use alpine_linux_mac_os.Adb.Blocks.{
  Block, valid, Flow, proceed, is_ext, block_type, rawsize, hdrsize, block_size, block_length,
  block_at, block_validate, fits, block_blob, foreach_block,
}
use alpine_linux_mac_os.Adb.Blocks.Enumerate.{block_validate-valid}
use alpine_linux_mac_os.Adb.Blocks.Files.{
  Unwrapped, walk, c_blocks, foreach_block-c_blocks, read_step,
}
use alpine_linux_mac_os.Adb.Parse.{
  zero_code, Key, Trust, Call, Parse, m_parse, parse_block, parse_adb, parse_sig, parse_data,
  call_back, parse_start, parse_end, final_code, handle_identity,
}
use alpine_linux_mac_os.Adb.Parse.Evidence.{Evidence, has_data, adb_call}
use alpine_linux_mac_os.Adb.Parse.Accepts.{m_parse-Evidence}
use alpine_linux_mac_os.Adb.Parse.Total.{m_parse_total}
use alpine_linux_mac_os.Adb.Parse.{digest_adb}
use alpine_linux_mac_os.Adb.Container.{dummy_cb, c_header, sign_v0, signatures, c_adb, m_mmap}
use alpine_linux_mac_os.Adb.Container.Accepted.{m_mmap-c_adb}

-- A stand-in for the cryptography: the digest is constant, and a signature is the number of its key.
abbrev calc : ℕ → Bytes → Option Bytes
calc alg b = some (replicate 64 7)

abbrev sign : Key → Bytes → Option Bytes
sign k m = some (k.key ∷ [])

abbrev verify : Key → Bytes → Bytes → Bool
verify k m [] = false
verify k m (x ∷ s) = x == k.key

abbrev open_trust : Trust
open_trust = record { allow_untrusted = true; trusted_keys = [] }

-- A database of 9 bytes in a block, and a data block of 2 bytes.
abbrev two_blocks : Bytes
two_blocks =
    13 ∷ 0 ∷ 0 ∷ 0 ∷ replicate 8 0 ++ (1 ∷ 0 ∷ 0 ∷ 0 ∷ []) ++ (6 ∷ 0 ∷ 0 ∷ 128 ∷ 9 ∷ 9 ∷ 0 ∷ 0 ∷ [])

abbrev two_blocks_parsed : Parse
two_blocks_parsed = record {
  adb = some (replicate 8 0 ++ (1 ∷ []));
  is_trusted = true;
  allowed = 2 ∷ [];
  code = zero_code;
  identity = none;
  calls = adb_call (replicate 8 0 ++ (1 ∷ [])) ∷ record { type = 2; payload = 9 ∷ 9 ∷ [] } ∷ [];
  is_crashed = false;
}

two_blocks_parse :
    m_parse calc verify dummy_cb (some open_trust) 0 none two_blocks ≡ some two_blocks_parsed
unfolding m_parse parse_block parse_adb parse_sig parse_data call_back parse_start parse_end
    final_code handle_identity foreach_block block_validate fits block_at is_ext block_type rawsize
    hdrsize block_size block_length block_blob le_value
two_blocks_parse = refl

m_parse-Evidence_example :
    (two_blocks_parsed.code ≡ zero_code
      → (d : Bytes) × (two_blocks_parsed.adb ≡ some d)
        × Evidence calc verify dummy_cb (some open_trust) 0 none d)
    × (has_data two_blocks_parsed.calls ≡ true
        → (d : Bytes) × (rest : List Call) × (two_blocks_parsed.calls ≡ adb_call d ∷ rest)
          × Evidence calc verify dummy_cb (some open_trust) 0 none d)
m_parse-Evidence_example =
    m_parse-Evidence calc verify dummy_cb (some open_trust) 0 none two_blocks two_blocks_parsed
      two_blocks_parse

two_blocks_sizes : all_below 24 (λ pos. ltb (rawsize (block_at two_blocks pos) + 8) (2 ^ 64)) ≡ true
unfolding all_below rawsize block_at is_ext le_value
two_blocks_sizes = refl

two_blocks-Unwrapped : Unwrapped two_blocks
two_blocks-Unwrapped pos h = ltb→lt (rawsize (block_at two_blocks pos) + 8) (2 ^ 64) (
    all_below_sound 24 (λ p. ltb (rawsize (block_at two_blocks p) + 8) (2 ^ 64)) pos
      two_blocks_sizes h)

m_parse_total_example :
    (p : Parse) × (m_parse calc verify dummy_cb (some open_trust) 0 none two_blocks ≡ some p)
m_parse_total_example =
    m_parse_total calc verify dummy_cb open_trust 0 none two_blocks two_blocks-Unwrapped

abbrev first_block : Block
first_block = record { type_size = 13; x_size = 0 }

first_size : rawsize first_block + 8 < 2 ^ 64
unfolding rawsize is_ext
first_size = omega arith

block_validate_first : block_validate two_blocks 0 ≡ valid first_block
unfolding block_validate fits block_at is_ext rawsize hdrsize block_size le_value
block_validate_first = refl

block_validate-valid_example :
    (0 + block_size first_block ≤ length two_blocks)
    × (8 ≤ block_size first_block)
    × (hdrsize first_block + block_length first_block ≡ rawsize first_block)
    × (rawsize first_block ≤ block_size first_block)
    × (length (block_blob two_blocks 0 first_block) ≡ block_length first_block)
block_validate-valid_example =
    block_validate-valid two_blocks 0 first_block (omega arith) first_size block_validate_first

-- A size that wraps around to 0 when it is rounded up is taken for valid: the next block is the same.
endless : Bytes
endless = 1 ∷ 0 ∷ 0 ∷ 192 ∷ replicate 4 0 ++ (255 ∷ 255 ∷ 255 ∷ 255 ∷ 255 ∷ 255 ∷ 255 ∷ 255 ∷ [])

endless_block :
    (block_validate endless 0 ≡ valid (record { type_size = 0xc0000001; x_size = 2 ^ 64 - 1 }))
    × (block_size (record { type_size = 0xc0000001; x_size = 2 ^ 64 - 1 }) ≡ 0)
unfolding endless block_validate fits block_at is_ext rawsize hdrsize block_size le_value
endless_block = (refl, refl)

-- The steps over the blocks, collected.
abbrev collect : List (ℕ × Bytes) → ℕ → Bytes → Flow (List (ℕ × Bytes))
collect s type b = proceed (s ++ ((type, b) ∷ []))

abbrev written_blocks : List (ℕ × Bytes)
written_blocks = (0, 1 ∷ 2 ∷ []) ∷ (2, 9 ∷ []) ∷ []

foreach_block-c_blocks_example :
    foreach_block
      (read_step collect (c_blocks written_blocks))
      (suc (length (c_blocks written_blocks)))
      (c_blocks written_blocks)
      0
      []
    ≡ some (walk collect written_blocks [])
foreach_block-c_blocks_example =
    foreach_block-c_blocks collect written_blocks []
      ((omega arith, omega arith), ((omega arith, omega arith), tt))

abbrev key : Key
key = record { id = replicate 16 3; key = 42 }

abbrev key_trust : Trust
key_trust = record { allow_untrusted = false; trusted_keys = key ∷ [] }

abbrev nine_bytes : Bytes
nine_bytes = replicate 8 0 ++ (1 ∷ [])

sign-verify : (k : Key) (m s : Bytes) → sign k m ≡ some s → verify k m s ≡ true
sign-verify k m s e =
    subst (λ x. verify k m x ≡ true) (some-injective (k.key ∷ []) s e) ((==_iff k.key k.key).1 refl)

sign_short : (k : Key) (m s : Bytes) → sign k m ≡ some s → length s ≤ 2030
sign_short k m s e = subst (λ x. length x ≤ 2030) (some-injective (k.key ∷ []) s e) (omega arith)

abbrev signed_file : Bytes
signed_file = c_header 0x676b6370 ++ c_blocks ((0, nine_bytes) ∷ (1, sign_v0 key ++ (42 ∷ [])) ∷ [])

nine_bytes_digest : digest_adb calc digest_sha512 nine_bytes ≡ inr (replicate 64 7)
unfolding digest_adb alg_len
nine_bytes_digest = refl

signed_file_written : c_adb calc sign 0x676b6370 nine_bytes (key ∷ []) ≡ some signed_file
unfolding c_adb signatures digest_adb
signed_file_written = refl

m_mmap-c_adb_example :
    (calls : List Call) × (m_mmap calc verify dummy_cb (some key_trust) none 0x676b6370 signed_file
      ≡ some
          (record { code = zero_code; schema = 0x676b6370; adb = some nine_bytes; calls = calls }))
m_mmap-c_adb_example =
    m_mmap-c_adb calc sign verify sign-verify sign_short key_trust 0 0x676b6370 0x676b6370
      nine_bytes (replicate 64 7) key [] signed_file refl (refl, tt) (omega arith) (omega arith)
      (inr refl) (omega arith) (omega arith) refl nine_bytes_digest signed_file_written

-- Where no digest can be calculated, a file without a signature is written.
unsigned_file_written :
    c_adb (λ alg b. none) sign 0x676b6370 nine_bytes (key ∷ [])
    ≡ some (c_header 0x676b6370 ++ c_blocks ((0, nine_bytes) ∷ []))
unfolding c_adb digest_adb
unsigned_file_written = refl
