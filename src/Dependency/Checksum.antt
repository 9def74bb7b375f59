-- ===== src/Dependency/Checksum.antt =====
-- A dependency on a package's checksum is satisfied by that package, and by no other content.
use alpine_linux_mac_os.Base.{
  true, Option, some, ◌++◌, Bytes, IsBytes, codes, length, take, drop, ◌≡◌, ◌↔◌, refl, arith,
  take-append_self, ap,
}
use alpine_linux_mac_os.Blob.{bytes, Blob}
use alpine_linux_mac_os.Blob.Order.{blob_compare, is_eq}
use alpine_linux_mac_os.Blob.Order.Laws.{blob_compare_iff}
use alpine_linux_mac_os.Blob.Base64.{base64_text}
use alpine_linux_mac_os.Digest.{Digest}
use alpine_linux_mac_os.Digest.RoundTrip.{pushed-push_hash, pull_digest-base64}
use alpine_linux_mac_os.Version.Operators.{depmask_checksum}
use alpine_linux_mac_os.Dependency.Lists.{same_name}
use alpine_linux_mac_os.Dependency.Matching.{
  Package, dep_from_pkg, dep_match_checksum, dep_analyze, satisfies, relation_of,
}

version-dep_from_pkg :
    (pkg : Package)
    → length pkg.hash ≡ 20
    → (dep_from_pkg pkg).version ≡ codes "Q1" ++ base64_text pkg.hash
unfolding dep_from_pkg
version-dep_from_pkg pkg e =
    ap (λ (b : Blob). bytes b) (pushed-push_hash 64 pkg.hash e (omega arith))

take_hash : (h rest : Bytes) → length h ≡ 20 → take 20 (h ++ rest) ≡ h
take_hash h rest e = rw (← e) (take-append_self h rest)

-- For a package with a hash of 20 bytes, the dependency that `apk_dep_from_pkg` makes of it is
-- matched by another package as `apk_blob_compare` of the two hashes says, whatever stood on the
-- stack before.
pub match_checksum-dep_from_pkg :
    (d : Digest) (pkg other : Package)
    → IsBytes pkg.hash
    → length pkg.hash ≡ 20
    → dep_match_checksum d (dep_from_pkg pkg) other
      ≡ some (is_eq (blob_compare pkg.hash other.hash))
unfolding dep_match_checksum
match_checksum-dep_from_pkg d pkg other b e =
    rw
      (
        version-dep_from_pkg pkg e,
        dep_match_checksum,
        pull_digest-base64 pkg.hash d b e,
        take_hash pkg.hash (drop 20 d.content) e,
      )
      refl

name-dep_from_pkg : (pkg : Package) → (dep_from_pkg pkg).name ≡ pkg.name
unfolding dep_from_pkg
name-dep_from_pkg pkg = refl

op-dep_from_pkg : (pkg : Package) → (dep_from_pkg pkg).op ≡ depmask_checksum
unfolding dep_from_pkg
op-dep_from_pkg pkg = refl

analyze_value :
    (d : Digest) (deppkg : Option Package) (pkg other : Package)
    → IsBytes pkg.hash
    → length pkg.hash ≡ 20
    → pkg.name ≡ other.name
    → dep_analyze d deppkg (dep_from_pkg pkg) (some other)
      ≡ some (relation_of (is_eq (blob_compare pkg.hash other.hash)))
unfolding dep_analyze
analyze_value d deppkg pkg other b e n =
    let same : same_name (dep_from_pkg pkg).name other.name ≡ true =
      rw (name-dep_from_pkg pkg) (ap is_eq ((blob_compare_iff pkg.name other.name).1 n)) in
    rw (same, op-dep_from_pkg pkg, match_checksum-dep_from_pkg d pkg other b e) refl

-- For a package with a hash of 20 bytes and another package of the same name, `apk_dep_analyze`
-- answers that the other satisfies the dependency that `apk_dep_from_pkg` makes of the first
-- exactly if the two hashes are equal, whatever stood on the stack before.
pub analyze-dep_from_pkg :
    (d : Digest) (deppkg : Option Package) (pkg other : Package)
    → IsBytes pkg.hash
    → length pkg.hash ≡ 20
    → pkg.name ≡ other.name
    → (dep_analyze d deppkg (dep_from_pkg pkg) (some other) ≡ some satisfies)
      ↔ (pkg.hash ≡ other.hash)
analyze-dep_from_pkg d deppkg pkg other b e n = (
  λ h.
      (blob_compare_iff pkg.hash other.hash).0
        (ground (arith, analyze_value d deppkg pkg other b e n)),
  λ q.
      ground
        (arith, analyze_value d deppkg pkg other b e n, (blob_compare_iff pkg.hash other.hash).1 q),
)
