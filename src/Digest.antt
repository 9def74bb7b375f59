-- ===== src/Digest.antt =====
-- The digests of apk-tools/src/apk_crypto.h and crypto.c, and their text in blob.c:
-- `apk_blob_push_hash`, `apk_blob_push_hash_hex` and `apk_blob_pull_digest`.
pub mod RoundTrip
use alpine_linux_mac_os.Base.{
  ℕ, ◌+◌, Bool, true, false, not, ◌&&◌, none, some, [], ◌∷◌, ◌++◌, Bytes, codes, length, take, drop,
  get_or, ◌==◌, if◌then◌else◌,
}
use alpine_linux_mac_os.Blob.{Blob, Sink, bytes}
use alpine_linux_mac_os.Blob.Push.{push_blob, push_hexdump}
use alpine_linux_mac_os.Blob.Pull.{Pulled, pulled, failed, overrun, dx, pull_hexdump}
use alpine_linux_mac_os.Blob.Base64.{b64decode, push_base64, pull_base64}

abbrev pub digest_none : ℕ
digest_none = 0

abbrev pub digest_sha1 : ℕ
digest_sha1 = 2

abbrev pub digest_sha256 : ℕ
digest_sha256 = 3

abbrev pub digest_sha512 : ℕ
digest_sha512 = 4

abbrev pub digest_sha256_160 : ℕ
digest_sha256_160 = 5

-- `apk_digest_alg_len`.
unfoldable pub alg_len : ℕ → ℕ
alg_len alg =
    if alg == digest_sha1
    then 20
    else if alg == digest_sha256_160
    then 20
    else if alg == digest_sha256
    then 32
    else if alg == digest_sha512
    then 64
    else 0

-- `apk_digest_alg_by_len`.
unfoldable pub alg_by_len : ℕ → ℕ
alg_by_len len =
    if len == 0
    then digest_none
    else if len == 20
    then digest_sha1
    else if len == 32
    then digest_sha256
    else if len == 64
    then digest_sha512
    else digest_none

-- `struct apk_digest`: `content` is the whole array, of which `len` bytes count.
pub record Digest : Type 0 where
  pub alg : ℕ
  pub len : ℕ
  pub content : Bytes

-- APK_DIGEST_BLOB(d).
abbrev pub digest_blob : Digest → Bytes
digest_blob d = take d.len d.content

-- memcpy(d->data + offset, stored, length).
abbrev pub store : ℕ → Bytes → Digest → Digest
store offset stored d = record d {
  content = take offset d.content ++ (stored ++ drop (offset + length stored) d.content);
}

unfoldable pub digest_reset : Digest → Digest
digest_reset d = record d { alg = digest_none; len = 0 }

unfoldable pub digest_set : Digest → ℕ → Digest
unfolding alg_len
digest_set d alg = record d { alg = alg; len = alg_len alg }

-- `apk_digest_from_blob`.
unfoldable pub digest_from_blob : Digest → Bytes → Digest
unfolding alg_by_len
digest_from_blob d b =
    let alg = alg_by_len (length b) in
    if alg == digest_none
    then record d { alg = alg; len = 0 }
    else store 0 b (record d { alg = alg; len = length b })

-- `apk_blob_push_hash` and `apk_blob_push_hash_hex`: only SHA-1 lengths are written.
unfoldable pub push_hash : Sink → Bytes → Sink
unfolding push_blob push_base64
push_hash to hash = if length hash == 20 then push_base64 (push_blob to (codes "Q1")) hash else none

unfoldable pub push_hash_hex : Sink → Bytes → Sink
unfolding push_blob push_hexdump
push_hash_hex to hash =
    if length hash == 20 then push_hexdump (push_blob to (codes "X1")) hash else none

-- The blob and the digest that `apk_blob_pull_digest` leaves, or a read behind the blob's end.
pub data DigestRead : Type 0 where
  read : Blob → Digest → DigestRead
  outside : DigestRead

after_pull : ℕ → Digest → Pulled → DigestRead
after_pull offset d (pulled rest stored) = read (some rest) (store offset stored d)
after_pull offset d (failed stored) = read none (store offset stored d)
after_pull offset d overrun = outside

-- The rest of a SHA-256 that an old version cut to the length of a SHA-1: `width` characters, of
-- which `starts` tells the first one.
extend : ℕ → (ℕ → Bool) → (Blob → ℕ → Pulled) → DigestRead → DigestRead
unfolding after_pull digest_set
extend width starts pull outside = outside
extend width starts pull (read b d) =
    if d.alg == digest_sha1 && length (bytes b) == width && starts (get_or (bytes b) 0 0)
    then after_pull 20 (digest_set d digest_sha256) (pull b 12)
    else read b d

decode : ℕ → Bytes → Digest → DigestRead
unfolding extend digest_reset
decode encoding b d =
    if encoding == b'X'
    then extend 24 (λ c. not (dx c == 0xff)) pull_hexdump
        (after_pull 0 d (pull_hexdump (some b) d.len))
    else if encoding == b'Q'
    then extend 16 (λ c. not (b64decode c == 0xff)) pull_base64
        (after_pull 0 d (pull_base64 (some b) d.len))
    else read none (digest_reset d)

-- `apk_blob_pull_digest`.
unfoldable pub pull_digest : Blob → Digest → DigestRead
unfolding decode digest_set digest_reset
pull_digest none d = read none (digest_reset d)
pull_digest (some []) d = read none (digest_reset d)
pull_digest (some (c ∷ [])) d = read none (digest_reset d)
pull_digest (some (encoding ∷ kind ∷ b)) d =
    if kind == b'1'
    then decode encoding b (digest_set d digest_sha1)
    else if kind == b'2'
    then decode encoding b (digest_set d digest_sha256)
    else read none (digest_reset d)
