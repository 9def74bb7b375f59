-- ===== src/Blob/Pull/Hex.antt =====
-- `apk_blob_pull_hexdump`: what it accepts, its round trip, and where it reads behind the blob.
use Prim.Native.Nat.{◌≤◌}
use alpine_linux_mac_os.Base.{
  ℕ, zero, suc, ◌+◌, ◌*◌, ◌/◌, ◌%◌, ◌^◌, ◌<◌, bit_and, bit_or, some, true, ◌&&◌, [], ◌∷◌, ◌++◌, ◌≡◌,
  ◌≢◌, refl, Bytes, IsBytes, length, ◌==◌, arith, all_below, all_below_sound, append_assoc,
  length-append, append-nil, ap, ◌∙◌, ◌↔◌,
}
use alpine_linux_mac_os.Base.Bits.{bit_or-lt}
use alpine_linux_mac_os.Blob.Push.{hex_text}
use alpine_linux_mac_os.Blob.Push.Decimal.{dx-xd}
use alpine_linux_mac_os.Blob.Push.Bounds.{length-hex_text}
use alpine_linux_mac_os.Blob.Pull.{pulled, overrun, hex_loop, pull_hexdump}

nibble_table :
    all_below 256 (λ c. (bit_and (c / 2 ^ 4) 0xf == c / 16) && (bit_and c 0xf == c % 16)) ≡ true
unfolding all_below
nibble_table = refl

nibbles : (c : ℕ) → c < 256 → (bit_and (c / 2 ^ 4) 0xf ≡ c / 16) × (bit_and c 0xf ≡ c % 16)
nibbles c h = ground (
  arith,
  all_below_sound 256 (λ x. (bit_and (x / 2 ^ 4) 0xf == x / 16) && (bit_and x 0xf == x % 16)) c
      nibble_table h,
)

hex_loop-hex_text :
    (b rest : Bytes) (r : ℕ) (done : Bytes)
    → IsBytes b
    → r < 64
    → hex_loop (length b) (hex_text b ++ rest) r done ≡ pulled rest (done ++ b)
unfolding hex_loop hex_text
hex_loop-hex_text [] rest r done h k = rw append-nil (ground arith)
hex_loop-hex_text (c ∷ b) rest r done (hc, hb) k =
    let (n1, n2) = nibbles c hc in
    let k1 : bit_or r (c / 16) < 64 = bit_or-lt r (c / 16) k (omega arith) in
    let k2 : bit_or (bit_or r (c / 16)) (c % 16) < 64 =
      bit_or-lt (bit_or r (c / 16)) (c % 16) k1 (omega arith) in
    let d : (c / 16 * 2 ^ 4 + c % 16) % 2 ^ 8 ≡ c = omega arith in
    rw (n1, n2, dx-xd (c / 16) (omega arith), dx-xd (c % 16) (omega arith), d)
      (hex_loop-hex_text b rest (bit_or (bit_or r (c / 16)) (c % 16)) (done ++ c ∷ []) hb k2
        ∙ ap (pulled rest) (append_assoc done (c ∷ []) b))

-- What `apk_blob_push_hexdump` writes for any bytes is decoded to the same bytes by
-- `apk_blob_pull_hexdump`, with the rest of the blob left.
pub pull_hexdump-hex_text :
    (b rest : Bytes)
    → IsBytes b
    → pull_hexdump (some (hex_text b ++ rest)) (length b) ≡ pulled rest b
unfolding pull_hexdump
pull_hexdump-hex_text b rest h =
    ground
      (arith, hex_loop-hex_text b rest 0 [] h, length-append (hex_text b) rest, length-hex_text b)

hex_loop-overrun :
    (n : ℕ) (b : Bytes) (r : ℕ) (done : Bytes) → length b < n * 2 → hex_loop n b r done ≡ overrun
unfolding hex_loop
hex_loop-overrun zero b r done h = absurd (omega arith)
hex_loop-overrun (suc n) [] r done h = refl
hex_loop-overrun (suc n) (c ∷ []) r done h = refl
hex_loop-overrun (suc n) (c ∷ d ∷ b) r done h = hex_loop-overrun n b _ _ (omega arith)

hex_loop-ne-overrun :
    (n : ℕ) (b : Bytes) (r : ℕ) (done : Bytes) → n * 2 ≤ length b → hex_loop n b r done ≢ overrun
unfolding hex_loop
hex_loop-ne-overrun zero b r done h = ground arith
hex_loop-ne-overrun (suc n) [] r done h = absurd (omega arith)
hex_loop-ne-overrun (suc n) (c ∷ []) r done h = absurd (omega arith)
hex_loop-ne-overrun (suc n) (c ∷ d ∷ b) r done h = hex_loop-ne-overrun n b _ _ (omega arith)

-- The length test of `apk_blob_pull_hexdump` compares `to.len` with twice the blob's length, and
-- not twice `to.len` with it: the loop reads behind the blob exactly if the blob is shorter than
-- the two characters for each byte and not shorter than half a character for each.
pub pull_hexdump-overrun :
    (b : Bytes) (n : ℕ)
    → (pull_hexdump (some b) n ≡ overrun) ↔ ((length b < n * 2) × (n ≤ length b * 2))
unfolding pull_hexdump
pull_hexdump-overrun b n = (
  λ h. ground (arith, hex_loop-ne-overrun n b 0 []),
  λ h. ground (arith, hex_loop-overrun n b 0 []),
)
