-- ===== src/Tar/Extended/Records.antt =====
-- What `handle_extended_header` of apk-tools/src/tar.c makes of a record that tells its own length.
use alpine_linux_mac_os.Base.{
  ℕ, ◌+◌, ◌-◌, ◌%◌, ◌^◌, ◌<◌, false, Option, some, [], ◌∷◌, ◌++◌, Bytes, length, length-append,
  take-append_self, drop-append_self, append_assoc, ltb, ◌≡◌, refl, ap, ◌∙◌, arith, inr,
}
use alpine_linux_mac_os.Blob.Search.Splits.{Lacks, blob_split_complete}
use alpine_linux_mac_os.Blob.Push.{uint_text}
use alpine_linux_mac_os.Blob.Push.Decimal.{pull_uint-uint_text}
use alpine_linux_mac_os.Blob.Pull.{pull_uint, pull_char}
use alpine_linux_mac_os.Tar.Extended.{Extended, read_value, read_record}

-- A record of an extended header: its length in decimal, its name and its value.
abbrev pub record_text : ℕ → Bytes → Bytes → Bytes
record_text total name value =
    uint_text total 10 ++ (b' ' ∷ (name ++ (b'=' ∷ (value ++ b'\n' ∷ []))))

read_value-value :
    (len used : ℕ) (name value rest : Bytes)
    → len ≡ used + length value
    → read_value len used name (value ++ b'\n' ∷ rest) ≡ some (name, value, rest)
unfolding read_value pull_char
read_value-value len used name value rest h =
    let size : len - used ≡ length value = omega arith in
    let first : ltb len used ≡ false = ground arith in
    let second : ltb (length (value ++ b'\n' ∷ rest)) (length value) ≡ false =
      ground (arith, length-append value (b'\n' ∷ rest)) in
    rw
      (
        read_value,
        first,
        size,
        second,
        drop-append_self value (b'\n' ∷ rest),
        take-append_self value (b'\n' ∷ rest),
      )
      refl

-- A record that tells its own length is read as its name and its value, and the rest is what follows it.
pub read_record-record_text :
    (total : ℕ) (name value rest : Bytes)
    → total ≡ length (record_text total name value)
    → total < 2 ^ 32
    → Lacks b'=' name
    → read_record (record_text total name value ++ rest) ≡ some (name, value, rest)
unfolding read_record pull_char
read_record-record_text total name value rest h l k =
    let tail = value ++ b'\n' ∷ rest in
    let number = uint_text total 10 in
    let hdr = number ++ (b' ' ∷ (name ++ (b'=' ∷ tail))) in
    let whole : record_text total name value ++ rest ≡ hdr =
      append_assoc number (b' ' ∷ (name ++ (b'=' ∷ (value ++ b'\n' ∷ [])))) rest
      ∙ ap (λ b. number ++ b' ' ∷ b)
          (append_assoc name (b'=' ∷ (value ++ b'\n' ∷ [])) rest
            ∙ ap (λ b. name ++ b'=' ∷ b) (append_assoc value (b'\n' ∷ []) rest)) in
    let read : pull_uint hdr 10 ≡ (total, b' ' ∷ (name ++ (b'=' ∷ tail))) =
      pull_uint-uint_text 10 total (b' ' ∷ (name ++ (b'=' ∷ tail))) (omega arith) (omega arith)
        (omega arith) (inr (ground arith)) in
    let split = blob_split_complete b'=' name tail k in
    let used : length hdr - length tail + 1 ≡ length number + length name + 3 = omega (
      arith,
      length-append number (b' ' ∷ (name ++ (b'=' ∷ tail))),
      length-append name (b'=' ∷ tail),
    ) in
    let small : total % 2 ^ 32 ≡ total = omega arith in
    rw (whole, read_record, read, split, small, used)
      (read_value-value total _ name value rest (
        omega (
          arith,
          length-append number (b' ' ∷ (name ++ (b'=' ∷ (value ++ b'\n' ∷ [])))),
          length-append name (b'=' ∷ (value ++ b'\n' ∷ [])),
          length-append value (b'\n' ∷ []),
        )))
