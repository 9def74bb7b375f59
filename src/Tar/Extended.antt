-- ===== src/Tar/Extended.antt =====
-- The extended headers of apk-tools/src/tar.c: `handle_extended_header`.
pub mod Records
use alpine_linux_mac_os.Base.{
  ◌>>=◌, ℕ, zero, suc, ◌+◌, ◌-◌, ◌*◌, ◌%◌, ◌^◌, ◌<◌, ◌≤◌, Bool, true, false, not, ◌&&◌, Option,
  some, none, [], ◌∷◌, ◌++◌, List, Bytes, codes, length, take, drop, length-append, length-drop,
  take-append_self, drop-append_self, append_assoc, ltb, ◌==◌, if◌then◌else◌, ◌≡◌, refl, sym, ap,
  ◌∙◌, subst, arith, Bool-cases, Option-cases, inl, inr, IsBytes,
}
use mathlib.Core.Option.{some-injective}
use alpine_linux_mac_os.Blob.Order.{blob_compare, is_eq}
use alpine_linux_mac_os.Blob.Search.{blob_split}
use alpine_linux_mac_os.Blob.Search.Splits.{Lacks, blob_split_complete, blob_split_sound}
use alpine_linux_mac_os.Blob.Push.{uint_text}
use alpine_linux_mac_os.Blob.Push.Decimal.{Stops, pull_uint-uint_text}
use alpine_linux_mac_os.Blob.Pull.{
  dx, pull_uint, uint_loop, pull_char, pull_blob_match, pull_hexdump, Pulled, pulled, failed,
  overrun,
}
use alpine_linux_mac_os.Digest.{Digest, digest_none, digest_sha1, digest_set, digest_reset}

-- What an extended header changes of `struct apk_file_info`.
pub record Extended : Type 0 where
  pub name : Option Bytes
  pub link_target : Option Bytes
  pub xattrs : List (Bytes × Bytes)
  pub digest : Digest

-- A text up to its first zero.
unfoldable pub c_text : Bytes → Bytes
c_text [] = []
c_text (c ∷ b) = let rest = c_text b in if c == 0 then [] else c ∷ rest

-- `APK_DIGEST_BLOB(fi->digest)` with the bytes that were stored in it.
abbrev pub stored : Digest → Bytes → Digest
stored d done = record d { content = done ++ drop (length done) d.content }

-- The branch for a checksum; `none` where the value is read behind its end.
unfoldable pub set_checksum : Bytes → Bytes → Extended → Option Extended
unfolding blob_compare digest_set pull_hexdump digest_reset
set_checksum name value fi =
    let alg = if is_eq (blob_compare name (codes "SHA1")) then digest_sha1 else digest_none in
    let d = digest_set fi.digest alg in
    if not (ltb fi.digest.alg alg) then some fi else elim (pull_hexdump (some value) d.len) [
      | pulled rest done ↦ some (record fi { digest = stored d done })
      | failed done ↦ some (record fi { digest = digest_reset (stored d done) })
      | overrun ↦ none
    ]

-- The branches on the name of a record.
unfoldable pub set_attribute : Bytes → Bytes → Extended → Option Extended
unfolding blob_compare pull_blob_match c_text set_checksum
set_attribute name value fi =
    if is_eq (blob_compare name (codes "path"))
    then some (record fi { name = some (c_text value) })
    else if is_eq (blob_compare name (codes "linkpath"))
    then some (record fi { link_target = some (c_text value) })
    else elim (pull_blob_match name (codes "SCHILY.xattr.")) as (λ _. Option Extended) [
      | some attribute ↦ some (record fi { xattrs = fi.xattrs ++ (c_text attribute, value) ∷ [] })
      | none ↦ elim (pull_blob_match name (codes "APK-TOOLS.checksum.")) as (λ _. Option Extended) [
        | some alg ↦ set_checksum alg value fi
        | none ↦ some fi
      ]
    ]

-- The value of a record of `len` bytes behind its name, where `used` bytes are counted before.
unfoldable pub read_value : ℕ → ℕ → Bytes → Bytes → Option (Bytes × Bytes × Bytes)
unfolding pull_char
read_value len used name hdr =
    if ltb len used then none else if ltb (length hdr) (len - used) then none else do
      rest ← pull_char (some (drop (len - used) hdr)) b'\n'
      some (name, take (len - used) hdr, rest)

-- One round of the loop up to the branches: the name, the value and the rest, or `none` for a break.
unfoldable pub read_record : Bytes → Option (Bytes × Bytes × Bytes)
unfolding pull_uint pull_char blob_split read_value
read_record hdr = do
  b ← pull_char (some (pull_uint hdr 10).1) b' '
  (name, rest) ← blob_split b (codes "=")
  read_value ((pull_uint hdr 10).0 % 2 ^ 32) (length hdr - length rest + 1) name rest

-- `handle_extended_header`, by rounds, of which the length of the header is enough: a round takes a
-- record from it. `none` where a value is read behind its end.
unfoldable pub handle_records : ℕ → Bytes → Extended → Option Extended
unfolding read_record set_attribute
handle_records zero hdr fi = some fi
handle_records (suc fuel) hdr fi = elim (read_record hdr) as (λ _. Option Extended) [
  | none ↦ some fi
  | some (name, value, rest) ↦ set_attribute name value fi >>= handle_records fuel rest
]

unfoldable pub handle_extended_header : Bytes → Extended → Option Extended
unfolding handle_records
handle_extended_header hdr fi = handle_records (length hdr) hdr fi
