-- ===== src/Tests/Archives.antt =====
-- Runs of the writer of archives, and instances of its theorems.
use alpine_linux_mac_os.Base.{
  true, Option, some, none, [], ◌∷◌, Bytes, codes, replicate, ◌++◌, ◌≡◌, refl, arith,
}
use alpine_linux_mac_os.Ctype.{is_member}
use alpine_linux_mac_os.Tar.Extended.{Extended, handle_extended_header}
use alpine_linux_mac_os.Blob.Search.{blob_contains}
use alpine_linux_mac_os.Tar.{FileInfo, get_octal, put_octal, fill_header, zero_header, write_entry}
use alpine_linux_mac_os.Tar.Layout.{fill_header_fields, append, Aligned, write_entry-Aligned}

-- A file of five bytes with a name that is longer than the field.
abbrev info : FileInfo
info = record {
  name = some (replicate 120 b'n');
  uname = none;
  gname = some (codes "wheel");
  size = 5;
  uid = 0;
  gid = 10;
  mode = 33188;
  mtime = 1700000000;
}

put_size : put_octal 8 420 true ≡ codes "0000644" ++ 0 ∷ []
unfolding put_octal
put_size = refl

fill_header_fields_example :
    (get_octal (fill_header b'0' info.name 5 info zero_header).size ≡ (5, true))
    × (get_octal (fill_header b'0' info.name 5 info zero_header).uid ≡ (0, true))
    × (get_octal (fill_header b'0' info.name 5 info zero_header).gid ≡ (10, true))
    × (get_octal (fill_header b'0' info.name 5 info zero_header).mode ≡ (420, true))
    × (get_octal (fill_header b'0' info.name 5 info zero_header).mtime ≡ (1700000000, true))
fill_header_fields_example =
    fill_header_fields b'0' info.name 5 info zero_header (omega arith) (omega arith) (omega arith)
      (omega arith)

write_entry-Aligned_example : Aligned [] (write_entry append [] (some info) (some (codes "hello")))
write_entry-Aligned_example = write_entry-Aligned [] (codes "hello") info refl refl

abbrev no_attributes : Extended
no_attributes = record {
  name = none;
  link_target = none;
  xattrs = [];
  digest = record { alg = 0; len = 0; content = replicate 64 0 };
}

abbrev name_of : Option Extended → Option Bytes
name_of none = none
name_of (some fi) = fi.name

-- Two records: a name, and an attribute of the file.
reads_records :
    name_of (handle_extended_header (codes "12 path=a/b\n24 SCHILY.xattr.user=ok\n") no_attributes)
    ≡ some (codes "a/b")
unfolding handle_extended_header is_member blob_contains
reads_records = refl
