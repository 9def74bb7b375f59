-- ===== src/Tests/Blobs.antt =====
-- Instances of the theorems on character classes and blobs.
use alpine_linux_mac_os.Base.{
  ◌*◌, ◌<◌, ◌≤◌, some, [], ◌∷◌, ◌++◌, Bytes, codes, length, ◌≡◌, ◌↔◌, refl, arith,
}
use alpine_linux_mac_os.Blob.Search.{blob_contains, blob_split}
use alpine_linux_mac_os.Blob.Push.{hex_text}
use alpine_linux_mac_os.Blob.Pull.{pulled, overrun, pull_hexdump}
use alpine_linux_mac_os.Blob.Pull.Hex.{pull_hexdump-hex_text, pull_hexdump-overrun}
use alpine_linux_mac_os.Blob.Base64.{base64_text, pull_base64}
use alpine_linux_mac_os.Blob.Base64.RoundTrip.{pull_base64-base64_text}

abbrev line : Bytes
line = codes "key=value=more"

abbrev digest : Bytes
digest = 0 ∷ 255 ∷ 16 ∷ 77 ∷ []

split_line : blob_split line (codes "=") ≡ some (codes "key", codes "value=more")
unfolding blob_split blob_contains
split_line = refl

pull_hexdump-hex_text_example :
    pull_hexdump (some (hex_text digest ++ codes " ")) 4 ≡ pulled (codes " ") digest
pull_hexdump-hex_text_example = pull_hexdump-hex_text digest (codes " ") (omega arith)

pull_hexdump-overrun_example :
    (pull_hexdump (some (codes "0011")) 4 ≡ overrun)
    ↔ ((length (codes "0011") < 4 * 2) × (4 ≤ length (codes "0011") * 2))
pull_hexdump-overrun_example = pull_hexdump-overrun (codes "0011") 4

pull_base64-base64_text_example :
    pull_base64 (some (base64_text digest ++ codes " ")) 4 ≡ pulled (codes " ") digest
pull_base64-base64_text_example = pull_base64-base64_text digest (codes " ") (omega arith)
