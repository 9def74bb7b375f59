-- ===== src/Tar/Layout.antt =====
-- What apk-tools/src/tar.c writes: headers of 512 bytes whose fields read back, and entries that end
-- at a multiple of 512 bytes.
use alpine_linux_mac_os.Base.{
  ℕ, suc, ◌+◌, ◌-◌, ◌%◌, ◌^◌, ◌<◌, ◌≤◌, true, false, Option, some, none, [], ◌∷◌, ◌++◌, Bytes,
  codes, length, take, replicate, length-replicate, length-append, length-take, take-append_self,
  append-nil, ltb, ◌==◌, ◌≡◌, refl, sym, ap, ◌∙◌, arith, Bool-cases, Option-cases, inl, inr,
}
use alpine_linux_mac_os.Tar.{
  TarHeader, header_bytes, zero_header, FileInfo, get_octal, put_octal, copy_string, int_size,
  name_or_root, fill_fields, fill_header, sum, padding, write_padding, write_longname_entry,
  is_regular, write_longname, write_content, write_entry,
}
use alpine_linux_mac_os.Tar.Octal.{get_octal-put_octal, length-put_octal}

length-copy_string : (n : ℕ) (text : Bytes) → 0 < n → length (copy_string n text) ≡ n
unfolding copy_string
length-copy_string n text h =
    let copied = take (n - 1) text in
    let l : length copied ≤ n - 1 = omega (arith, length-take (n - 1) text) in
    omega (
      arith,
      length-append copied (replicate (n - length copied) 0),
      length-replicate {A = ℕ} (n - length copied) 0,
    )

int_size_small : (n : ℕ) → n < 2 ^ 31 → int_size n ≡ n
unfolding int_size
int_size_small n h = ground arith

-- The fields of a header that `apk_tar_fill_header` fills read back: the size below 2 ^ 31, the owners
-- below 8 ^ 7, the lower twelve bits of the mode, and the time below 8 ^ 12.
pub fill_header_fields :
    (t : ℕ) (name : Option Bytes) (size : ℕ) (ae : FileInfo) (hdr : TarHeader)
    → size < 2 ^ 31
    → ae.uid < 8 ^ 7
    → ae.gid < 8 ^ 7
    → ae.mtime < 8 ^ 12
    → (get_octal (fill_header t name size ae hdr).size ≡ (size, true))
      × (get_octal (fill_header t name size ae hdr).uid ≡ (ae.uid, true))
      × (get_octal (fill_header t name size ae hdr).gid ≡ (ae.gid, true))
      × (get_octal (fill_header t name size ae hdr).mode ≡ (ae.mode % 2 ^ 12, true))
      × (get_octal (fill_header t name size ae hdr).mtime ≡ (ae.mtime, true))
unfolding fill_header fill_fields
fill_header_fields t name size ae hdr a b c d = (
  rw (int_size_small size a) (get_octal-put_octal 12 size false (omega arith) (omega arith)),
  get_octal-put_octal 8 ae.uid true (omega arith) (omega arith),
  get_octal-put_octal 8 ae.gid true (omega arith) (omega arith),
  get_octal-put_octal 8 (ae.mode % 2 ^ 12) true (omega arith) (omega arith),
  get_octal-put_octal 12 ae.mtime false (omega arith) (omega arith),
)

-- The padding fills a file of any size up to a multiple of 512 bytes.
padding_fills : (size : ℕ) → (size + length (padding size)) % 512 ≡ 0
unfolding padding
padding_fills size = elim (Bool-cases (512 - size % 512 == 512)) [
  | inl e ↦ rw (padding, e) (ground arith)
  | inr e ↦ rw (padding, e) (omega (arith, length-replicate {A = ℕ} (512 - size % 512) 0))
]

sum_length : (m n : ℕ) (xs ys : Bytes) → length xs ≡ m → length ys ≡ n → length (xs ++ ys) ≡ m + n
sum_length m n xs ys h k = omega (arith, length-append xs ys)

name_length :
    (name : Option Bytes)
    → length
        (elim name as (λ _. Bytes) [ none ↦ replicate 100 0 | some text ↦ copy_string 100 text ])
      ≡ 100
name_length none = refl
name_length (some text) = length-copy_string 100 text (omega arith)

-- The fields of a header with their widths.
record IsHeader (h : TarHeader) : Type 0 where
  name : length h.name ≡ 100
  mode : length h.mode ≡ 8
  uid : length h.uid ≡ 8
  gid : length h.gid ≡ 8
  size : length h.size ≡ 12
  mtime : length h.mtime ≡ 12
  chksum : length h.chksum ≡ 8
  linkname : length h.linkname ≡ 100
  magic : length h.magic ≡ 8
  uname : length h.uname ≡ 32
  gname : length h.gname ≡ 32
  devmajor : length h.devmajor ≡ 8
  devminor : length h.devminor ≡ 8
  prefix : length h.prefix ≡ 155

length-header_bytes : (h : TarHeader) → IsHeader h → length (header_bytes h) ≡ 512
unfolding header_bytes
length-header_bytes h i =
    (sum_length 100 412 h.name _ i.name (
      sum_length 8 404 h.mode _ i.mode (
        sum_length 8 396 h.uid _ i.uid (
          sum_length 8 388 h.gid _ i.gid (
            sum_length 12 376 h.size _ i.size (
              sum_length 12 364 h.mtime _ i.mtime (
                sum_length 8 356 h.chksum _ i.chksum (
                  ap suc (
                    sum_length 100 255 h.linkname _ i.linkname (
                      sum_length 8 247 h.magic _ i.magic (
                        sum_length 32 215 h.uname _ i.uname (
                          sum_length 32 183 h.gname _ i.gname (
                            sum_length 8 175 h.devmajor _ i.devmajor (
                              sum_length 8 167 h.devminor _ i.devminor
                                (sum_length 155 12 h.prefix _ i.prefix refl)))))))))))))))

-- A header that `apk_tar_fill_header` fills has 512 bytes.
pub length-fill_header :
    (t : ℕ) (name : Option Bytes) (size : ℕ) (ae : FileInfo)
    → length (header_bytes (fill_header t name size ae zero_header)) ≡ 512
unfolding fill_header fill_fields
length-fill_header t name size ae =
    let filled = fill_fields t name size ae zero_header in
    let total = sum (header_bytes filled) in
    length-header_bytes (fill_header t name size ae zero_header) (record {
      name = name_length name;
      mode = length-put_octal 8 (ae.mode % 2 ^ 12) true (omega arith);
      uid = length-put_octal 8 ae.uid true (omega arith);
      gid = length-put_octal 8 ae.gid true (omega arith);
      size = length-put_octal 12 (int_size size) false (omega arith);
      mtime = length-put_octal 12 ae.mtime false (omega arith);
      chksum =
          sum_length 7 1 (put_octal 7 total true) (0x20 ∷ [])
            (length-put_octal 7 total true (omega arith)) refl;
      linkname = refl;
      magic = refl;
      uname = length-copy_string 32 (name_or_root ae.uname) (omega arith);
      gname = length-copy_string 32 (name_or_root ae.gname) (omega arith);
      devmajor = refl;
      devminor = refl;
      prefix = refl;
    })

-- A stream that keeps all that is written.
abbrev pub append : Bytes → Bytes → Option Bytes
append os b = some (os ++ b)

-- What is written ends where it began, modulo 512.
abbrev pub Aligned : Bytes → Option Bytes → Type 0
Aligned os r = (out : Bytes) × (r ≡ some out) × (length out % 512 ≡ length os % 512)

header_aligned :
    (os : Bytes) (t : ℕ) (name : Option Bytes) (size : ℕ) (ae : FileInfo)
    → length (os ++ header_bytes (fill_header t name size ae zero_header)) % 512 ≡ length os % 512
header_aligned os t name size ae = omega (
  arith,
  length-append os (header_bytes (fill_header t name size ae zero_header)),
  length-fill_header t name size ae,
)

-- Content and its padding.
padded :
    (os content : Bytes) (size : ℕ)
    → length content ≡ size
    → Aligned os (write_padding append (os ++ content) size)
unfolding write_padding
padded os content size h = elim (Bool-cases (size % 512 == 0)) [
  | inl e ↦
      let z : size % 512 ≡ 0 = ground arith in
      rw (write_padding, e) (os ++ content, refl, omega (arith, length-append os content))
  | inr e ↦
      rw (write_padding, e)
        (
          (os ++ content) ++ padding size,
          refl,
          omega (
            arith,
            length-append os content,
            length-append (os ++ content) (padding size),
            padding_fills size,
          ),
        )
]

longname-Aligned : (os : Bytes) (ae : FileInfo) → Aligned os (write_longname append os ae)
unfolding write_longname write_longname_entry
longname-Aligned os ae = elim (Option-cases ae.name) [
  | inl e ↦ rw (write_longname, e) (os, refl, refl)
  | inr (name, e) ↦ elim (Bool-cases (ltb 99 (length name))) [
    | inl k ↦
        let header =
          header_bytes
            (fill_header b'L' (some (codes "././@LongLink")) (length name) ae zero_header) in
        let (out, w, a) =
          padded (os ++ header) (name ++ 0 ∷ []) (length name + 1) (length-append name (0 ∷ [])) in
        rw (write_longname, e, k)
          (out, w, a ∙ header_aligned os b'L' (some (codes "././@LongLink")) (length name) ae)
    | inr k ↦ rw (write_longname, e, k) (os, refl, refl)
  ]
]

take_whole : (n : ℕ) (xs : Bytes) → length xs ≡ n → take n xs ≡ xs
take_whole n xs h =
    ap (λ m. take m xs) (sym h)
    ∙ (ap (take (length xs)) (sym (append-nil xs)) ∙ take-append_self xs [])

-- A regular file with content of its size is written, and what is written is a multiple of 512 bytes.
pub write_entry-Aligned :
    (os content : Bytes) (ae : FileInfo)
    → is_regular append ae.mode ≡ true
    → length content ≡ ae.size
    → Aligned os (write_entry append os (some ae) (some content))
unfolding write_entry write_content
write_entry-Aligned os content ae r h =
    let (os1, e, a) = longname-Aligned os ae in
    let header = header_bytes (fill_header b'0' ae.name ae.size ae zero_header) in
    let whole : take ae.size content ≡ content = take_whole ae.size content h in
    let (out, w, b) = padded (os1 ++ header) content ae.size h in
    rw (write_entry, r, e, whole) (out, w, b ∙ (header_aligned os1 b'0' ae.name ae.size ae ∙ a))
