-- ===== src/Blob/Push/Bounds.antt =====
-- Nothing is written behind the end of a sink's buffer.
use alpine_linux_mac_os.Base.{
  ℕ, ◌+◌, ◌-◌, ◌≤◌, ◌++◌, append_assoc, refl, ◌*◌, none, some, [], ◌∷◌, ◌≡◌, Bytes, length, arith,
  length-append, leb, if◌then◌else◌,
}
use alpine_linux_mac_os.Blob.{Buffer, Sink, buffer, blob_pushed}
use alpine_linux_mac_os.Blob.Push.{push_blob, push_uint, hex_text, push_hexdump, uint_text}

-- A sink into an array of `size` bytes: what is written and what is left are the array.
abbrev pub Fits : ℕ → Sink → Type 0
Fits size none = Unit
Fits size (some o) = length o.written + o.room ≡ size

pub push_blob-Fits : (size : ℕ) (to : Sink) (b : Bytes) → Fits size to → Fits size (push_blob to b)
unfolding push_blob
push_blob-Fits size none b h = tt
push_blob-Fits size (some o) b h = ground (arith, length-append o.written b)

pub push_uint-Fits :
    (size : ℕ) (to : Sink) (v radix : ℕ) → Fits size to → Fits size (push_uint to v radix)
unfolding push_uint
push_uint-Fits size to v radix h = push_blob-Fits size to (uint_text v radix) h

pub length-hex_text : (b : Bytes) → length (hex_text b) ≡ length b * 2
unfolding hex_text
length-hex_text [] = omega arith
length-hex_text (c ∷ b) = omega (arith, length-hex_text b)

-- A push of a hexdump into a buffer keeps it within its size: what is written and the room left
-- are the size together, or the blob has become null.
pub push_hexdump-Fits :
    (size : ℕ) (to : Sink) (b : Bytes) → Fits size to → Fits size (push_hexdump to b)
unfolding push_hexdump
push_hexdump-Fits size none b h = tt
push_hexdump-Fits size (some o) b h =
    ground (arith, length-append o.written (hex_text b), length-hex_text b)

-- A fresh array of `size` bytes takes a text exactly if the text is no longer than it, and then
-- `apk_blob_pushed` gives the text back.
pub pushed-push_blob :
    (size : ℕ) (b : Bytes)
    → blob_pushed (push_blob (buffer size) b) ≡ (if leb (length b) size then some b else none)
unfolding push_blob blob_pushed
pushed-push_blob size b = ground arith

-- A text for which there is room is appended to what is written.
pub push_blob_fits :
    (o : Buffer) (b : Bytes)
    → length b ≤ o.room
    → push_blob (some o) b ≡ some (record { written = o.written ++ b; room = o.room - length b })
unfolding push_blob
push_blob_fits o b h = ground arith

-- Two texts pushed one after the other are their concatenation pushed at once.
pub push_blob-append :
    (to : Sink) (a b : Bytes) → push_blob (push_blob to a) b ≡ push_blob to (a ++ b)
unfolding push_blob
push_blob-append none a b = refl
push_blob-append (some o) a b = ground (arith, length-append a b, append_assoc o.written a b)
