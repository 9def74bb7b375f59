-- ===== src/Tar.antt =====
-- The headers and the writer of apk-tools/src/tar.c. A field is the list of its bytes. The stream is
-- the callback `write` of its operations, with `none` for an error.
pub mod Octal
pub mod Layout
pub mod Extended
use alpine_linux_mac_os.Base.{
  ◌>>=◌, ℕ, zero, suc, ◌+◌, ◌-◌, ◌*◌, ◌/◌, ◌%◌, ◌^◌, Bool, true, false, not, ◌&&◌, ◌||◌, Option,
  some, none, [], ◌∷◌, ◌++◌, List, Bytes, codes, length, take, replicate, ltb, ◌==◌, if◌then◌else◌,
}
use alpine_linux_mac_os.Blob.Pull.{pull_uint}

-- `struct tar_header`, without the padding at its end.
pub record TarHeader : Type 0 where
  pub name : Bytes
  pub mode : Bytes
  pub uid : Bytes
  pub gid : Bytes
  pub size : Bytes
  pub mtime : Bytes
  pub chksum : Bytes
  pub typeflag : ℕ
  pub linkname : Bytes
  pub magic : Bytes
  pub uname : Bytes
  pub gname : Bytes
  pub devmajor : Bytes
  pub devminor : Bytes
  pub prefix : Bytes

-- The 512 bytes of a header.
unfoldable pub header_bytes : TarHeader → Bytes
header_bytes h =
    h.name
    ++ (h.mode
        ++ (h.uid
            ++ (h.gid
                ++ (h.size
                    ++ (h.mtime
                        ++ (h.chksum
                            ++ (h.typeflag
                                ∷ (h.linkname
                                    ++ (h.magic
                                        ++ (h.uname
                                            ++ (h.gname
                                                ++ (h.devmajor
                                                    ++ (h.devminor
                                                        ++ (h.prefix ++ replicate 12 0))))))))))))))

-- A header that is all zero.
abbrev pub zero_header : TarHeader
zero_header = record {
  name = replicate 100 0;
  mode = replicate 8 0;
  uid = replicate 8 0;
  gid = replicate 8 0;
  size = replicate 12 0;
  mtime = replicate 12 0;
  chksum = replicate 8 0;
  typeflag = 0;
  linkname = replicate 100 0;
  magic = replicate 8 0;
  uname = replicate 32 0;
  gname = replicate 32 0;
  devmajor = replicate 8 0;
  devminor = replicate 8 0;
  prefix = replicate 155 0;
}

-- What the writer reads of `struct apk_file_info`; `none` for NULL.
pub record FileInfo : Type 0 where
  pub name : Option Bytes
  pub uname : Option Bytes
  pub gname : Option Bytes
  pub size : ℕ
  pub uid : ℕ
  pub gid : ℕ
  pub mode : ℕ
  pub mtime : ℕ

-- The loop of `get_octal` that skips zeros and spaces.
unfoldable pub skip_blanks : Bytes → Bytes
skip_blanks [] = []
skip_blanks (c ∷ b) = let rest = skip_blanks b in if c == 0 || c == 0x20 then rest else c ∷ b

-- `get_octal`: the value, and whether the field is well formed.
unfoldable pub get_octal : Bytes → ℕ × Bool
unfolding pull_uint skip_blanks
get_octal field = let (val, rest) = pull_uint field 8 in (val, length (skip_blanks rest) == 0)

-- The loops of `put_octal`, from the end of the field on: the positions left, the value, and the
-- bytes behind them.
unfoldable pub put_digits : ℕ → ℕ → Bytes → Bytes
put_digits zero value behind = behind
put_digits (suc left) value behind =
    let more = put_digits left (value / 8) ((b'0' + value % 8) ∷ behind) in
    if value == 0 then replicate (suc left) b'0' ++ behind else more

unfoldable pub put_octal : ℕ → ℕ → Bool → Bytes
unfolding put_digits
put_octal l value has_zero =
    if has_zero then put_digits (l - 1) value (0 ∷ []) else put_digits l value []

-- `strlcpy` into a field of zeros.
unfoldable pub copy_string : ℕ → Bytes → Bytes
copy_string n text = let copied = take (n - 1) text in copied ++ replicate (n - length copied) 0

-- An `int` as a `size_t`.
unfoldable pub int_size : ℕ → ℕ
int_size n = let w = n % 2 ^ 32 in if ltb w (2 ^ 31) then w else w + (2 ^ 64 - 2 ^ 32)

abbrev pub name_or_root : Option Bytes → Bytes
name_or_root none = codes "root"
name_or_root (some text) = text

unfoldable pub sum : Bytes → ℕ
sum [] = 0
sum (c ∷ b) = c + sum b

-- `apk_tar_fill_header` up to the checksum, with its field blank.
unfoldable pub fill_fields : ℕ → Option Bytes → ℕ → FileInfo → TarHeader → TarHeader
unfolding put_octal copy_string int_size
fill_fields typeflag name size ae hdr = record hdr {
  typeflag = typeflag;
  name = elim name as (λ _. Bytes) [ none ↦ hdr.name | some text ↦ copy_string 100 text ];
  uname = copy_string 32 (name_or_root ae.uname);
  gname = copy_string 32 (name_or_root ae.gname);
  size = put_octal 12 (int_size size) false;
  uid = put_octal 8 ae.uid true;
  gid = put_octal 8 ae.gid true;
  mode = put_octal 8 (ae.mode % 2 ^ 12) true;
  mtime = put_octal 12 ae.mtime false;
  magic = codes "ustar  " ++ 0 ∷ [];
  chksum = replicate 8 0x20;
}

-- `apk_tar_fill_header`.
unfoldable pub fill_header : ℕ → Option Bytes → ℕ → FileInfo → TarHeader → TarHeader
unfolding fill_fields header_bytes sum put_octal
fill_header typeflag name size ae hdr =
    let filled = fill_fields typeflag name size ae hdr in
    record filled { chksum = put_octal 7 (sum (header_bytes filled)) true ++ 0x20 ∷ [] }

-- The bytes that `apk_tar_write_padding` writes, if any.
unfoldable pub padding : ℕ → Bytes
padding size = let pad = 512 - size % 512 in if pad == 512 then [] else replicate pad 0

module _ {S : Type 0} (write : S → Bytes → Option S) where
  unfoldable pub write_padding : S → ℕ → Option S
  unfolding padding
  write_padding os size = if size % 512 == 0 then some os else write os (padding size)

  unfoldable pub write_longname_entry : S → Bytes → FileInfo → Option S
  unfolding fill_header header_bytes write_padding
  write_longname_entry os name ae = do
    os1 ← write os (
        header_bytes (fill_header b'L' (some (codes "././@LongLink")) (length name) ae zero_header))
    os2 ← write os1 (name ++ 0 ∷ [])
    write_padding os2 (length name + 1)

  -- S_ISREG.
  abbrev pub is_regular : ℕ → Bool
  is_regular mode = mode / 2 ^ 12 % 2 ^ 4 == 8

  -- The long name in front of an entry.
  unfoldable pub write_longname : S → FileInfo → Option S
  unfolding write_longname_entry
  write_longname os ae = elim (ae.name) as (λ _. Option S) [
    | none ↦ some os
    | some name ↦ if ltb 99 (length name) then write_longname_entry os name ae else some os
  ]

  -- The data behind the header.
  unfoldable pub write_content : S → FileInfo → Option Bytes → Option S
  unfolding write_padding
  write_content os ae none = some os
  write_content os ae (some text) = do os1 ← write os (take ae.size text); write_padding os1 ae.size

  -- `apk_tar_write_entry`; the content is `none` for NULL, and else holds the bytes of the file.
  unfoldable pub write_entry : S → Option FileInfo → Option Bytes → Option S
  unfolding write_longname write_content fill_header header_bytes
  write_entry os none content = do
    os1 ← write os (header_bytes zero_header)
    write os1 (header_bytes zero_header)
  write_entry os (some ae) content = if not (is_regular ae.mode) then none else do
    os1 ← write_longname os ae
    os2 ← write os1 (header_bytes (fill_header b'0' ae.name ae.size ae zero_header))
    write_content os2 ae content
