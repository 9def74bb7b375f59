-- ===== src/Adb.antt =====
-- The database format of apk-tools/src/adb.h and apk-tools/src/adb.c: its values, and the state of a
-- database that is read or written. The children use this module.
-- A value (`adb_val_t`) is the 32-bit number that it stores in little-endian order; its type is in
-- the upper 4 bits, and in the lower 28 bits stands a number or an offset into the data.
-- An assertion that fails ends the program: the operation returns none.
pub mod ValType
pub mod Layout
pub mod Blocks
pub mod Read
pub mod Parse
pub mod Container
pub mod Malformed
pub mod Write
pub mod Objects
pub mod Schema
use alpine_linux_mac_os.Base.{
  ℕ, zero, suc, ◌+◌, ◌-◌, ◌*◌, ◌/◌, ◌%◌, ◌^◌, bit_or, Bool, Option, some, none, List, [], ◌∷◌,
  Bytes, length, take, drop, leb, if◌then◌else◌,
}

-- ADB_VAL_TYPE.
abbrev pub val_type : ℕ → ℕ
val_type v = v / 2 ^ 28 * 2 ^ 28

-- ADB_VAL_VALUE.
abbrev pub val_value : ℕ → ℕ
val_value v = v % 2 ^ 28

-- ADB_VAL: `htole32` keeps the lower 32 bits.
abbrev pub val : ℕ → ℕ → ℕ
val type n = bit_or type n % 2 ^ 32

-- ADB_NULL.
abbrev pub null : ℕ
null = 0

-- `htole16`, `htole32` and `htole64` as the k bytes that they store.
unfoldable pub le_bytes : ℕ → ℕ → Bytes
le_bytes zero n = []
le_bytes (suc k) n = n % 256 ∷ le_bytes k (n / 256)

-- `le16toh`, `le32toh`, `le64toh` and `apk_aligned32_le64` of bytes that are stored.
unfoldable pub le_value : Bytes → ℕ
le_value [] = 0
le_value (c ∷ cs) = c + 256 * le_value cs

-- ROUND_UP, for an alignment that is a power of two.
abbrev pub round_up : ℕ → ℕ → ℕ
round_up n alignment = (n + alignment - 1) / alignment * alignment

-- One entry of `struct adb_w_bucket`; its length is 0 where it is not in use.
pub record Entry : Type 0 where
  pub hash : ℕ
  pub offs : ℕ
  pub len : ℕ

-- `struct adb` without its stream. `adb` is the memory from `adb.ptr`, `adb.len` bytes of it. A chain
-- of buckets is the list of all their entries, 40 for each bucket.
pub record Adb : Type 0 where
  pub adb : Bytes
  pub alloc_len : ℕ
  pub no_cache : ℕ
  pub bucket : List (List Entry)

-- `sizeof(struct adb_hdr)`.
abbrev pub header_size : ℕ
header_size = 8

-- `adb_r_deref`: the s bytes at an offset behind a value's, none for NULL.
unfoldable pub r_deref : Bytes → ℕ → ℕ → ℕ → Option Bytes
r_deref adb v offs s =
    let at = offs + val_value v in
    if leb (at + s) (length adb) then some (take s (drop at adb)) else none
