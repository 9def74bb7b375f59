-- ===== src/Blob/Push.antt =====
-- The `apk_blob_push_*` functions of blob.c. A sink that lacks the room becomes APK_BLOB_NULL, and
-- stays so.
pub mod Decimal
pub mod Bounds
use alpine_linux_mac_os.Base.{
  ℕ, zero, suc, ◌+◌, ◌-◌, ◌*◌, ◌/◌, ◌%◌, ◌^◌, Option, none, some, [], ◌∷◌, ◌++◌, Bytes, codes,
  length, ltb, ◌==◌, if◌then◌else◌, arith, bit_and,
}
use alpine_linux_mac_os.Blob.{Buffer, Sink}

-- `apk_blob_push_blob`.
unfoldable pub push_blob : Sink → Bytes → Sink
push_blob none literal = none
push_blob (some to) literal =
    if ltb to.room (length literal)
    then none
    else some (record { written = to.written ++ literal; room = to.room - length literal })

-- `xd[v]`, for v below 36.
unfoldable pub xd : ℕ → ℕ
xd v = if ltb v 10 then b'0' + v else b'a' + (v - 10)

-- The loop of `apk_blob_push_uint`, from the last digit to the first. Each round divides the value
-- by the radix, so that it makes at most as many rounds as the value says.
unfoldable pub digit_loop : ℕ → ℕ → ℕ → Bytes → Bytes
unfolding xd
digit_loop zero value radix out = out
digit_loop (suc fuel) value radix out =
    let more = digit_loop fuel (value / radix) radix (xd (value % radix) ∷ out) in
    if value == 0 then out else more

-- The text that `apk_blob_push_uint` pushes.
unfoldable pub uint_text : ℕ → ℕ → Bytes
unfolding digit_loop
uint_text value radix = if value == 0 then b'0' ∷ [] else digit_loop value value radix []

unfoldable pub push_uint : Sink → ℕ → ℕ → Sink
unfolding push_blob uint_text
push_uint to value radix = push_blob to (uint_text value radix)

-- The bytes that the loop of `apk_blob_push_hexdump` writes.
unfoldable pub hex_text : Bytes → Bytes
unfolding xd
hex_text [] = []
hex_text (c ∷ b) = xd (bit_and (c / 2 ^ 4) 0xf) ∷ xd (bit_and c 0xf) ∷ hex_text b

unfoldable pub push_hexdump : Sink → Bytes → Sink
unfolding hex_text
push_hexdump none binary = none
push_hexdump (some to) binary =
    if ltb to.room (length binary * 2)
    then none
    else some
        (record { written = to.written ++ hex_text binary; room = to.room - length binary * 2 })
