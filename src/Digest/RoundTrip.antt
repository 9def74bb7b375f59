-- ===== src/Digest/RoundTrip.antt =====
-- A SHA-1 that `apk_blob_push_hash` or `apk_blob_push_hash_hex` writes is read back by
-- `apk_blob_pull_digest`.
use alpine_linux_mac_os.Base.{
  ℕ, ◌+◌, ◌-◌, ◌/◌, ◌*◌, ◌≤◌, some, [], ◌++◌, Bytes, IsBytes, codes, length, drop, ◌≡◌, refl, arith,
  append-nil,
}
use alpine_linux_mac_os.Blob.{Buffer, buffer, blob_pushed}
use alpine_linux_mac_os.Blob.Push.{hex_text}
use alpine_linux_mac_os.Blob.Pull.{pulled, pull_hexdump}
use alpine_linux_mac_os.Blob.Pull.Hex.{pull_hexdump-hex_text}
use alpine_linux_mac_os.Blob.Push.Bounds.{push_blob_fits}
use alpine_linux_mac_os.Blob.Base64.{base64_text, pull_base64}
use alpine_linux_mac_os.Blob.Base64.RoundTrip.{pull_base64-base64_text, push_base64_fits}
use alpine_linux_mac_os.Digest.{Digest, read, digest_sha1, pull_digest, push_hash}

-- A digest as SHA-1 with the given bytes in front of what the array held.
abbrev pub sha1_of : Bytes → Digest → Digest
sha1_of h d = record { alg = digest_sha1; len = 20; content = h ++ drop 20 d.content }

-- What `apk_blob_push_hash` writes into an array of 30 bytes or more.
pub pushed-push_hash :
    (size : ℕ) (h : Bytes)
    → length h ≡ 20
    → 30 ≤ size
    → blob_pushed (push_hash (buffer size) h) ≡ some (codes "Q1" ++ base64_text h)
unfolding push_hash blob_pushed
pushed-push_hash size h e k =
    let o : Buffer = record { written = codes "Q1"; room = size - 2 } in
    let n : (20 + 2) / 3 * 4 ≡ 28 = refl in
    rw (e, push_blob_fits (record { written = []; room = size }) (codes "Q1") (omega arith))
      (rw (push_base64_fits o h (rw e (omega arith))) refl)

-- 20 bytes printed in base64 behind "Q1", as `apk_blob_push_hash` prints them, are read by
-- `apk_blob_pull_digest` as the SHA-1 of these bytes, and nothing of the text is left.
pub pull_digest-base64 :
    (h : Bytes) (d : Digest)
    → IsBytes h
    → length h ≡ 20
    → pull_digest (some (codes "Q1" ++ base64_text h)) d ≡ read (some []) (sha1_of h d)
unfolding pull_digest
pull_digest-base64 h d b e =
    let p : pull_base64 (some (base64_text h)) 20 ≡ pulled [] h =
      rw (append-nil (base64_text h), e) at (pull_base64-base64_text h [] b) in
    rw (p, e) refl

-- 20 bytes printed in hexadecimal behind "X1", as `apk_blob_push_hash_hex` prints them, are read
-- by `apk_blob_pull_digest` as the SHA-1 of these bytes, and nothing of the text is left.
pub pull_digest-hex :
    (h : Bytes) (d : Digest)
    → IsBytes h
    → length h ≡ 20
    → pull_digest (some (codes "X1" ++ hex_text h)) d ≡ read (some []) (sha1_of h d)
unfolding pull_digest
pull_digest-hex h d b e =
    let p : pull_hexdump (some (hex_text h)) 20 ≡ pulled [] h =
      rw (append-nil (hex_text h), e) at (pull_hexdump-hex_text h [] b) in
    rw (p, e) refl
