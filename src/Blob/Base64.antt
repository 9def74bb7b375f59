-- ===== src/Blob/Base64.antt =====
-- Base64 in blob.c: `apk_blob_push_base64` and `apk_blob_pull_base64` with their loops and tails.
pub mod RoundTrip
pub mod Accepts
use alpine_linux_mac_os.Base.{
  ℕ, zero, suc, ◌+◌, ◌-◌, ◌*◌, ◌/◌, ◌%◌, ◌^◌, bit_and, bit_or, none, some, Bool, true, false, not,
  ◌&&◌, ◌||◌, [], ◌∷◌, ◌++◌, Bytes, length, take, ltb, leb, ◌==◌, if◌then◌else◌,
}
use alpine_linux_mac_os.Blob.{Blob, Sink, Buffer}
use alpine_linux_mac_os.Blob.Pull.{Pulled, pulled, failed, overrun}

-- `b64encode[v]`, for v below 64.
unfoldable pub b64encode : ℕ → ℕ
b64encode v =
    if ltb v 26
    then b'A' + v
    else if ltb v 52
    then b'a' + (v - 26)
    else if ltb v 62
    then b'0' + (v - 52)
    else if v == 62
    then b'+'
    else b'/'

-- `b64decode[c]`. The table has 0 at '='.
unfoldable pub b64decode : ℕ → ℕ
b64decode c =
    if leb b'A' c && leb c b'Z'
    then c - b'A'
    else if leb b'a' c && leb c b'z'
    then c - b'a' + 26
    else if leb b'0' c && leb c b'9'
    then c - b'0' + 52
    else if c == b'+'
    then 62
    else if c == b'/'
    then 63
    else if c == b'='
    then 0
    else 0xff

-- `push_b64_tail`, for one byte and for two.
push_b64_tail1 : ℕ → Bytes
push_b64_tail1 f0 =
    b64encode (f0 / 2 ^ 2) ∷ b64encode (bit_or (bit_and f0 0x03 * 2 ^ 4) 0) ∷ b'=' ∷ b'=' ∷ []

push_b64_tail2 : ℕ → ℕ → Bytes
push_b64_tail2 f0 f1 =
    b64encode (f0 / 2 ^ 2)
    ∷ b64encode (bit_or (bit_and f0 0x03 * 2 ^ 4) (bit_and f1 0xf0 / 2 ^ 4))
    ∷ b64encode (bit_and f1 0x0f * 2 ^ 2)
    ∷ b'='
    ∷ []

-- One round of the loop in `apk_blob_push_base64`.
b64_quad : ℕ → ℕ → ℕ → Bytes
b64_quad s0 s1 s2 =
    b64encode (s0 / 2 ^ 2)
    ∷ b64encode (bit_or (bit_and s0 0x03 * 2 ^ 4) (bit_and s1 0xf0 / 2 ^ 4))
    ∷ b64encode (bit_or (bit_and s1 0x0f * 2 ^ 2) (bit_and s2 0xc0 / 2 ^ 6))
    ∷ b64encode (bit_and s2 0x3f)
    ∷ []

-- The text that `apk_blob_push_base64` writes: its loop, then the tail.
unfoldable pub base64_text : Bytes → Bytes
unfolding b64encode push_b64_tail1 push_b64_tail2 b64_quad
base64_text [] = []
base64_text (s0 ∷ []) = push_b64_tail1 s0
base64_text (s0 ∷ s1 ∷ []) = push_b64_tail2 s0 s1
base64_text (s0 ∷ s1 ∷ s2 ∷ b) = b64_quad s0 s1 s2 ++ base64_text b

unfoldable pub push_base64 : Sink → Bytes → Sink
unfolding base64_text
push_base64 none binary = none
push_base64 (some to) binary =
    let needed = (length binary + 2) / 3 * 4 in
    if ltb to.room needed
    then none
    else some (record { written = to.written ++ base64_text binary; room = to.room - needed })

-- The first, second and third byte that four decoded characters give.
abbrev byte0 : ℕ → ℕ → ℕ
byte0 t0 t1 = bit_or (t0 * 2 ^ 2) (t1 / 2 ^ 4) % 2 ^ 8

abbrev byte1 : ℕ → ℕ → ℕ
byte1 t1 t2 = bit_or (t1 * 2 ^ 4) (t2 / 2 ^ 2) % 2 ^ 8

abbrev byte2 : ℕ → ℕ → ℕ
byte2 t2 t3 = bit_or (bit_and (t2 * 2 ^ 6) 0xc0) t3 % 2 ^ 8

abbrev join4 : ℕ → ℕ → ℕ → ℕ → ℕ → ℕ
join4 r t0 t1 t2 t3 = bit_or (bit_or (bit_or (bit_or r t0) t1) t2) t3

-- `pull_b64_tail`: the next four characters, for the last `len` bytes.
pull_b64_tail : ℕ → Bytes → Bytes → Pulled
unfolding b64decode
pull_b64_tail len (c0 ∷ c1 ∷ c2 ∷ c3 ∷ rest) done =
    let t0 = b64decode c0 in
    let t1 = b64decode c1 in
    let t2 = b64decode c2 in
    let t3 = b64decode c3 in
    let stored = take len (byte0 t0 t1 ∷ byte1 t1 t2 ∷ byte2 t2 t3 ∷ []) in
    if join4 0 t0 t1 t2 t3 == 0xff
    then failed done
    else if not (ltb 1 len || c2 == b'=')
    then failed (done ++ byte0 t0 t1 ∷ [])
    else if not (ltb 2 len || c3 == b'=')
    then failed (done ++ stored)
    else pulled rest (done ++ stored)
pull_b64_tail len _ done = overrun

-- The loop of `apk_blob_pull_base64` over full groups, with `r` and the bytes stored so far, and
-- what follows it for the last `len` bytes.
b64_loop : ℕ → ℕ → Bytes → ℕ → Bytes → Pulled
unfolding pull_b64_tail
b64_loop zero len b r done =
    if r == 0xff then failed done else if len == 0 then pulled b done else pull_b64_tail len b done
b64_loop (suc n) len (c0 ∷ c1 ∷ c2 ∷ c3 ∷ b) r done =
    let t0 = b64decode c0 in
    let t1 = b64decode c1 in
    let t2 = b64decode c2 in
    let t3 = b64decode c3 in
    b64_loop n len b (join4 r t0 t1 t2 t3) (done ++ (byte0 t0 t1 ∷ byte1 t1 t2 ∷ byte2 t2 t3 ∷ []))
b64_loop (suc n) len _ r done = overrun

-- `apk_blob_pull_base64` into `n` bytes.
unfoldable pub pull_base64 : Blob → ℕ → Pulled
unfolding b64_loop
pull_base64 none n = failed []
pull_base64 (some b) n =
    if ltb (length b) ((n + 2) / 3 * 4) then failed [] else b64_loop (n / 3) (n % 3) b 0 []
