-- ===== src/Adb/Blocks.antt =====
-- The blocks of a file, of apk-tools/src/adb.h and apk-tools/src/adb.c: a header of 4 bytes, or of 16
-- for a long block, the payload, and zeros up to a multiple of 8.
pub mod Header
pub mod Enumerate
pub mod Files
use alpine_linux_mac_os.Base.{
  ℕ, zero, suc, ◌+◌, ◌-◌, ◌*◌, ◌/◌, ◌%◌, ◌^◌, Bool, Option, some, none, List, [], ◌∷◌, ◌++◌, Bytes,
  length, take, drop, replicate, ltb, leb, ◌==◌, ◌&&◌, if◌then◌else◌,
}
use alpine_linux_mac_os.Adb.{le_bytes, le_value}

-- `struct adb_block`, without the field that is always 0.
pub record Block : Type 0 where
  pub type_size : ℕ
  pub x_size : ℕ

-- ADB_BLOCK_ADB to ADB_BLOCK_EXT, ADB_BLOCK_MAX and ADB_BLOCK_ALIGNMENT.
abbrev pub block_adb : ℕ
block_adb = 0

abbrev pub block_sig : ℕ
block_sig = 1

abbrev pub block_data : ℕ
block_data = 2

abbrev pub block_ext : ℕ
block_ext = 3

abbrev pub block_max : ℕ
block_max = 4

abbrev pub block_alignment : ℕ
block_alignment = 8

-- `uint64_t`.
abbrev pub word64 : ℕ → ℕ
word64 n = n % 2 ^ 64

-- `adb_block_init`.
unfoldable pub block_init : ℕ → ℕ → Block
block_init type length =
    if leb length (0x3fffffff - 4)
    then record { type_size = (type * 2 ^ 30 + 4 + length) % 2 ^ 32; x_size = 0 }
    else record { type_size = (block_ext * 2 ^ 30 + type) % 2 ^ 32; x_size = word64 (16 + length) }

-- `adb_block_is_ext`.
unfoldable pub is_ext : Block → Bool
is_ext b = b.type_size / 2 ^ 30 == block_ext

-- `adb_block_type`.
unfoldable pub block_type : Block → ℕ
block_type b = if is_ext b then b.type_size % 2 ^ 30 else b.type_size / 2 ^ 30

-- `adb_block_rawsize`.
unfoldable pub rawsize : Block → ℕ
rawsize b = if is_ext b then b.x_size else b.type_size % 2 ^ 30

-- `adb_block_hdrsize`.
unfoldable pub hdrsize : Block → ℕ
hdrsize b = if is_ext b then 16 else 4

-- `adb_block_size`: the addition of ROUND_UP wraps around.
unfoldable pub block_size : Block → ℕ
block_size b = word64 (rawsize b + block_alignment - 1) / block_alignment * block_alignment

-- `adb_block_length`.
unfoldable pub block_length : Block → ℕ
block_length b = word64 (rawsize b + 2 ^ 64 - hdrsize b)

-- `adb_block_padding`.
unfoldable pub block_padding : Block → ℕ
block_padding b = (block_size b + 2 ^ 64 - rawsize b) % 2 ^ 32

-- The header at a position of memory. A short block has no second size: the code reads it in a long
-- block only, and here it is 0.
unfoldable pub block_at : Bytes → ℕ → Block
block_at b pos =
    let type_size = le_value (take 4 (drop pos b)) in
    record {
      type_size = type_size;
      x_size =
          if is_ext (record { type_size = type_size; x_size = 0 })
          then le_value (take 8 (drop (pos + 8) b))
          else 0;
    }

-- What `adb_block_validate` returns: NULL at the end, an error, or the block.
pub data Validated : Type 0 where
  finished invalid : Validated
  valid : Block → Validated

-- The conditions that `adb_block_validate` checks of a block that has len bytes up to the end.
unfoldable pub fits : ℕ → Block → Bool
fits len blk =
    leb 4 len
    && leb (hdrsize blk) len
    && leb (hdrsize blk) (rawsize blk)
    && leb (block_size blk) len

-- `adb_block_validate` for a block at a position up to the end of the memory.
unfoldable pub block_validate : Bytes → ℕ → Validated
block_validate b pos =
    if pos == length b
    then finished
    else if fits (length b - pos) (block_at b pos)
    then valid (block_at b pos)
    else invalid

-- `adb_block_blob`: the bytes of a block's payload that are in the memory.
unfoldable pub block_blob : Bytes → ℕ → Block → Bytes
block_blob b pos blk = take (block_length blk) (drop (pos + hdrsize blk) b)

-- The bytes of a header that are written: `adb_block_hdrsize` of the structure.
unfoldable pub header_bytes : Block → Bytes
header_bytes b =
    if is_ext b
    then le_bytes 4 b.type_size ++ replicate 4 0 ++ le_bytes 8 b.x_size
    else le_bytes 4 b.type_size

-- `adb_c_block`: all that it writes, where the stream takes it.
unfoldable pub c_block : ℕ → Bytes → Bytes
c_block type b =
    let blk = block_init type (length b) in header_bytes blk ++ b ++ replicate (block_padding blk) 0

-- What the body of a loop does: it goes on, or it leaves the loop.
pub data Flow {ℓ} (S : Type ℓ) : Type ℓ where
  proceed leave : S → Flow S

-- `adb_foreach_block`: the state in the end, and `blk` there. The loop has no end where the count that
-- bounds it does not suffice.
unfoldable pub foreach_block {ℓ} :
    {S : Type ℓ} → (S → ℕ → Block → Flow S) → ℕ → Bytes → ℕ → S → Option (S × Validated)
foreach_block body zero b pos s = none
foreach_block body (suc k) b pos s = elim (block_validate b pos) [
  | finished ↦ some (s, finished)
  | invalid ↦ some (s, invalid)
  | valid blk ↦ elim (body s pos blk) [
    | leave t ↦ some (t, valid blk)
    | proceed t ↦ foreach_block body k b (pos + block_size blk) t
  ]
]
