-- ===== src/Blob/Pull.antt =====
-- The `apk_blob_pull_*` functions of blob.c. On a blob of the wrong form they leave APK_BLOB_NULL.
pub mod Hex
use alpine_linux_mac_os.Base.{
  ℕ, zero, suc, ◌+◌, ◌-◌, ◌*◌, ◌/◌, ◌%◌, ◌^◌, ◌<◌, Option, none, some, Bool, true, false, not, ◌&&◌,
  ◌||◌, [], ◌∷◌, ◌++◌, Bytes, codes, length, drop, ltb, leb, ◌==◌, if◌then◌else◌, bit_or,
}
use alpine_linux_mac_os.Blob.{Blob}
use alpine_linux_mac_os.Blob.Order.{memcmp, blob_starts_with, is_eq}

-- `digitdecode[c]`. The table has 0x3e at '+'.
unfoldable pub dx : ℕ → ℕ
dx c =
    if leb b'0' c && leb c b'9'
    then c - b'0'
    else if leb b'A' c && leb c b'F'
    then c - b'A' + 10
    else if leb b'a' c && leb c b'f'
    then c - b'a' + 10
    else if c == b'+'
    then 0x3e
    else 0xff

-- `apk_blob_pull_char`.
unfoldable pub pull_char : Blob → ℕ → Blob
pull_char none expected = none
pull_char (some []) expected = none
pull_char (some (c ∷ b)) expected = if c == expected then some b else none

-- The loop of `apk_blob_pull_uint`, with `val` so far: the value and the rest of the blob.
unfoldable pub uint_loop : Bytes → ℕ → ℕ → ℕ × Bytes
unfolding dx
uint_loop [] radix val = (val, [])
uint_loop (c ∷ b) radix val =
    let more = uint_loop b radix ((val * radix + dx c) % 2 ^ 64) in
    if c == 0 then (val, c ∷ b) else if leb radix (dx c) then (val, c ∷ b) else more

unfoldable pub pull_uint : Bytes → ℕ → ℕ × Bytes
unfolding uint_loop
pull_uint b radix = uint_loop b radix 0

-- `apk_blob_pull_blob_match`: the rest behind the match, or `none` for 0.
unfoldable pub pull_blob_match : Bytes → Bytes → Option Bytes
unfolding memcmp
pull_blob_match b match =
    if ltb (length b) (length match)
    then none
    else if is_eq (memcmp (length match) b match)
    then some (drop (length match) b)
    else none

-- What a decoder does to the blob and to the bytes of `to`: the rest of the blob and the bytes
-- stored; APK_BLOB_NULL and the bytes stored before it gave up; or a read behind the blob's end.
pub data Pulled : Type 0 where
  pulled : Bytes → Bytes → Pulled
  failed : Bytes → Pulled
  overrun : Pulled

-- The loop of `apk_blob_pull_hexdump`: `n` bytes to store, `r` and the bytes stored so far.
unfoldable pub hex_loop : ℕ → Bytes → ℕ → Bytes → Pulled
unfolding dx
hex_loop zero b r done = if r == 0xff then failed done else pulled b done
hex_loop (suc n) (c1 ∷ c2 ∷ b) r done =
    hex_loop n b (bit_or (bit_or r (dx c1)) (dx c2))
      (done ++ ((dx c1 * 2 ^ 4 + dx c2) % 2 ^ 8) ∷ [])
hex_loop (suc n) _ r done = overrun

unfoldable pub pull_hexdump : Blob → ℕ → Pulled
unfolding hex_loop
pull_hexdump none n = failed []
pull_hexdump (some b) n = if ltb (length b * 2) n then failed [] else hex_loop n b 0 []
