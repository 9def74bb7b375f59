-- ===== src/Blob/Base64/RoundTrip.antt =====
-- What `apk_blob_push_base64` writes, `apk_blob_pull_base64` decodes to the same bytes.
use alpine_linux_mac_os.Base.{
  ℕ, suc, ◌-◌, ◌≤◌, ◌+◌, ◌*◌, ◌/◌, ◌%◌, ◌<◌, bit_and, bit_or, some, false, [], ◌∷◌, ◌++◌, Bytes,
  length, ◌==◌, ◌≡◌, refl, arith, IsBytes, append_assoc, append-nil, length-append, ap, ◌∙◌,
}
use alpine_linux_mac_os.Base.Bits.{masks, bit_or-lt, or_shl2, or_shl4, or_shl6, mask_shl6}
use alpine_linux_mac_os.Blob.{Buffer}
use alpine_linux_mac_os.Blob.Pull.{pulled}
use alpine_linux_mac_os.Blob.Base64.{
  b64encode, b64decode, push_b64_tail1, push_b64_tail2, b64_quad, base64_text, byte0, byte1, byte2,
  join4, b64_loop, pull_base64, push_base64,
}

b64decode-b64encode : (v : ℕ) → v < 64 → b64decode (b64encode v) ≡ v
unfolding b64decode b64encode
b64decode-b64encode v h = ground arith

-- The second, third and fourth value of a group.
value1 :
    (s0 s1 : ℕ)
    → s0 < 256
    → s1 < 256
    → bit_or (bit_and s0 0x03 * 16) (bit_and s1 0xf0 / 16) ≡ s0 % 4 * 16 + s1 / 16
value1 s0 s1 h0 h1 =
    rw ((masks s0 h0).0, (masks s1 h1).3)
      (omega (arith, or_shl4 (s0 % 4) (s1 / 16 * 16 / 16) (omega arith) (omega arith)))

value2 :
    (s1 s2 : ℕ)
    → s1 < 256
    → s2 < 256
    → bit_or (bit_and s1 0x0f * 4) (bit_and s2 0xc0 / 64) ≡ s1 % 16 * 4 + s2 / 64
value2 s1 s2 h1 h2 =
    rw ((masks s1 h1).1, (masks s2 h2).4)
      (omega (arith, or_shl2 (s1 % 16) (s2 / 64 * 64 / 64) (omega arith) (omega arith)))

byte0_lem : (t0 t1 : ℕ) → t0 < 64 → t1 < 64 → byte0 t0 t1 ≡ t0 * 4 + t1 / 16
byte0_lem t0 t1 h0 h1 = omega (arith, or_shl2 t0 (t1 / 16) h0 (omega arith))

byte1_lem : (t1 t2 : ℕ) → t1 < 64 → t2 < 64 → byte1 t1 t2 ≡ (t1 * 16 + t2 / 4) % 256
byte1_lem t1 t2 h1 h2 = omega (arith, or_shl4 t1 (t2 / 4) h1 (omega arith))

byte2_lem : (t2 t3 : ℕ) → t2 < 64 → t3 < 64 → byte2 t2 t3 ≡ t2 % 4 * 64 + t3
byte2_lem t2 t3 h2 h3 = rw (mask_shl6 t2 h2) (omega (arith, or_shl6 (t2 % 4) t3 (omega arith) h3))

join4-lt :
    (r t0 t1 t2 t3 : ℕ) → r < 64 → t0 < 64 → t1 < 64 → t2 < 64 → t3 < 64 → join4 r t0 t1 t2 t3 < 64
join4-lt r t0 t1 t2 t3 h h0 h1 h2 h3 =
    bit_or-lt _ t3 (bit_or-lt _ t2 (bit_or-lt _ t1 (bit_or-lt r t0 h h0) h1) h2) h3

-- A full group decodes to its three bytes.
read_quad :
    (n len s0 s1 s2 : ℕ) (rest : Bytes) (r : ℕ) (done : Bytes)
    → s0 < 256
    → s1 < 256
    → s2 < 256
    → r < 64
    → (r' : ℕ) × (r' < 64)
      × (b64_loop (suc n) len (b64_quad s0 s1 s2 ++ rest) r done
          ≡ b64_loop n len rest r' (done ++ (s0 ∷ s1 ∷ s2 ∷ [])))
unfolding b64_loop b64_quad
read_quad n len s0 s1 s2 rest r done h0 h1 h2 h =
    let t0 : ℕ = s0 / 4 in
    let t1 : ℕ = s0 % 4 * 16 + s1 / 16 in
    let t2 : ℕ = s1 % 16 * 4 + s2 / 64 in
    let t3 : ℕ = s2 % 64 in
    let l0 : t0 < 64 = omega arith in
    let l1 : t1 < 64 = omega arith in
    let l2 : t2 < 64 = omega arith in
    let l3 : t3 < 64 = omega arith in
    let b0 : byte0 t0 t1 ≡ s0 = omega (arith, byte0_lem t0 t1 l0 l1) in
    let b1 : byte1 t1 t2 ≡ s1 = omega (arith, byte1_lem t1 t2 l1 l2) in
    let b2 : byte2 t2 t3 ≡ s2 = omega (arith, byte2_lem t2 t3 l2 l3) in
    (
      join4 r t0 t1 t2 t3,
      join4-lt r t0 t1 t2 t3 h l0 l1 l2 l3,
      rw
          (
            value1 s0 s1 h0 h1,
            value2 s1 s2 h1 h2,
            (masks s2 h2).2,
            b64decode-b64encode t0 l0,
            b64decode-b64encode t1 l1,
            b64decode-b64encode t2 l2,
            b64decode-b64encode t3 l3,
            b0,
            b1,
            b2,
          )
          refl,
    )

ne_ff : (r : ℕ) → r < 64 → (r == 0xff) ≡ false
ne_ff r h = ground arith

read_tail1 :
    (s0 : ℕ) (rest : Bytes) (r : ℕ) (done : Bytes)
    → s0 < 256
    → r < 64
    → b64_loop 0 1 (push_b64_tail1 s0 ++ rest) r done ≡ pulled rest (done ++ s0 ∷ [])
unfolding b64_loop push_b64_tail1
read_tail1 s0 rest r done h0 h =
    let t0 : ℕ = s0 / 4 in
    let t1 : ℕ = s0 % 4 * 16 in
    let l0 : t0 < 64 = omega arith in
    let l1 : t1 < 64 = omega arith in
    let e1 : bit_or (bit_and s0 0x03 * 16) 0 ≡ t1 =
      rw (masks s0 h0).0 (omega (arith, or_shl4 (s0 % 4) 0 (omega arith) (omega arith))) in
    let b0 : byte0 t0 t1 ≡ s0 = omega (arith, byte0_lem t0 t1 l0 l1) in
    rw
      (
        e1,
        b64decode-b64encode t0 l0,
        b64decode-b64encode t1 l1,
        b0,
        ne_ff r h,
        ne_ff (join4 0 t0 t1 0 0)
            (join4-lt 0 t0 t1 0 0 (omega arith) l0 l1 (omega arith) (omega arith)),
      )
      refl

read_tail2 :
    (s0 s1 : ℕ) (rest : Bytes) (r : ℕ) (done : Bytes)
    → s0 < 256
    → s1 < 256
    → r < 64
    → b64_loop 0 2 (push_b64_tail2 s0 s1 ++ rest) r done ≡ pulled rest (done ++ s0 ∷ s1 ∷ [])
unfolding b64_loop push_b64_tail2
read_tail2 s0 s1 rest r done h0 h1 h =
    let t0 : ℕ = s0 / 4 in
    let t1 : ℕ = s0 % 4 * 16 + s1 / 16 in
    let t2 : ℕ = s1 % 16 * 4 in
    let l0 : t0 < 64 = omega arith in
    let l1 : t1 < 64 = omega arith in
    let l2 : t2 < 64 = omega arith in
    let b0 : byte0 t0 t1 ≡ s0 = omega (arith, byte0_lem t0 t1 l0 l1) in
    let b1 : byte1 t1 t2 ≡ s1 = omega (arith, byte1_lem t1 t2 l1 l2) in
    rw
      (
        value1 s0 s1 h0 h1,
        (masks s1 h1).1,
        b64decode-b64encode t0 l0,
        b64decode-b64encode t1 l1,
        b64decode-b64encode t2 l2,
        b0,
        b1,
        ne_ff r h,
        ne_ff (join4 0 t0 t1 t2 0) (join4-lt 0 t0 t1 t2 0 (omega arith) l0 l1 l2 (omega arith)),
      )
      refl

read_text :
    (b rest : Bytes) (r : ℕ) (done : Bytes)
    → IsBytes b
    → r < 64
    → b64_loop (length b / 3) (length b % 3) (base64_text b ++ rest) r done
      ≡ pulled rest (done ++ b)
unfolding base64_text
read_text [] rest r done hb h = unfold b64_loop in rw (ne_ff r h, append-nil)
read_text (s0 ∷ []) rest r done (h0, _) h = read_tail1 s0 rest r done h0 h
read_text (s0 ∷ s1 ∷ []) rest r done (h0, (h1, _)) h = read_tail2 s0 s1 rest r done h0 h1 h
read_text (s0 ∷ s1 ∷ s2 ∷ b) rest r done (h0, (h1, (h2, hb))) h =
    let (r', l, e) =
      read_quad (length b / 3) (length b % 3) s0 s1 s2 (base64_text b ++ rest) r done h0 h1 h2 h in
    let n : suc (suc (suc (length b))) / 3 ≡ suc (length b / 3) = omega arith in
    let m : suc (suc (suc (length b))) % 3 ≡ length b % 3 = omega arith in
    rw (n, m, append_assoc (b64_quad s0 s1 s2) (base64_text b) rest, e)
      (read_text b rest r' (done ++ (s0 ∷ s1 ∷ s2 ∷ [])) hb l
        ∙ ap (pulled rest) (append_assoc done (s0 ∷ s1 ∷ s2 ∷ []) b))

-- The text has four characters for every three bytes, the last three rounded up: the `needed` of
-- both functions.
pub length-base64_text : (b : Bytes) → length (base64_text b) ≡ (length b + 2) / 3 * 4
unfolding base64_text
length-base64_text [] = refl
length-base64_text (s0 ∷ []) = refl
length-base64_text (s0 ∷ s1 ∷ []) = refl
length-base64_text (s0 ∷ s1 ∷ s2 ∷ b) = omega (arith, length-base64_text b)

-- What `apk_blob_push_base64` writes for any bytes is decoded to the same bytes by
-- `apk_blob_pull_base64`, with the rest of the blob left.
pub pull_base64-base64_text :
    (b rest : Bytes)
    → IsBytes b
    → pull_base64 (some (base64_text b ++ rest)) (length b) ≡ pulled rest b
unfolding pull_base64
pull_base64-base64_text b rest h =
    ground
      (arith, read_text b rest 0 [] h, length-append (base64_text b) rest, length-base64_text b)

-- Bytes for whose text there is room are appended as text to what is written.
pub push_base64_fits :
    (o : Buffer) (b : Bytes)
    → (length b + 2) / 3 * 4 ≤ o.room
    → push_base64 (some o) b
      ≡ some
          (record { written = o.written ++ base64_text b; room = o.room - (length b + 2) / 3 * 4 })
unfolding push_base64
push_base64_fits o b h = ground arith
