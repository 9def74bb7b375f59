-- ===== src/Blob.antt =====
-- apk-tools/src/blob.c and apk_blob.h. A blob is a length and a pointer: here the bytes that it
-- spans, or `none` for APK_BLOB_NULL. A blob that is written to is a `Sink`: the bytes written in
-- front of its pointer and the room behind it. Lengths stay below 2^31, as `int` asks of them.
pub mod Order
pub mod Search
pub mod Push
pub mod Pull
pub mod Base64
pub mod Subst
use alpine_linux_mac_os.Base.{ℕ, Option, none, some, [], Bytes}

abbrev pub Blob : Type 0
Blob = Option Bytes

-- The bytes of a blob: APK_BLOB_NULL has length 0.
abbrev pub bytes : Blob → Bytes
bytes none = []
bytes (some b) = b

pub record Buffer : Type 0 where
  pub written : Bytes
  pub room : ℕ

abbrev pub Sink : Type 0
Sink = Option Buffer

-- APK_BLOB_BUF(buf) for an array of `size` bytes.
abbrev pub buffer : ℕ → Sink
buffer size = some (record { written = []; room = size })

-- `apk_blob_pushed(APK_BLOB_BUF(buf), left)`: the bytes written into the array so far.
unfoldable pub blob_pushed : Sink → Blob
blob_pushed none = none
blob_pushed (some o) = some o.written
