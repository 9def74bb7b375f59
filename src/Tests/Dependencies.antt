-- ===== src/Tests/Dependencies.antt =====
-- Instances of the theorems on digests, tags and dependencies.
use alpine_linux_mac_os.Base.{
  ℕ, false, none, some, [], ◌∷◌, ◌++◌, Bytes, codes, replicate, ◌≡◌, ◌≢◌, true, ◌↔◌, refl, arith,
}
use alpine_linux_mac_os.Blob.Order.{blob_compare}
use alpine_linux_mac_os.Blob.Push.{push_blob}
use alpine_linux_mac_os.Blob.{buffer}
use alpine_linux_mac_os.Blob.Base64.{base64_text}
use alpine_linux_mac_os.Version.Operators.{version_equal, version_op_string}
use alpine_linux_mac_os.Digest.{Digest, read, pull_digest}
use alpine_linux_mac_os.Digest.RoundTrip.{sha1_of, pull_digest-base64}
use alpine_linux_mac_os.Dependency.Replaces.{Owner}
use alpine_linux_mac_os.Dependency.{Dependency}
use alpine_linux_mac_os.Dependency.Print.{push_dep, push_dep-dep_text}
use alpine_linux_mac_os.Dependency.Syntax.{pull_deps}
use alpine_linux_mac_os.Dependency.Lists.{find_dep, deps_add, find-deps_add}
use alpine_linux_mac_os.Dependency.Matching.{Package, dep_from_pkg, dep_analyze, satisfies}
use alpine_linux_mac_os.Dependency.Reading.{pull_deps_total}
use alpine_linux_mac_os.Dependency.Checksum.{analyze-dep_from_pkg}

abbrev sha1 : Bytes
sha1 =
    0xda ∷ 0x39 ∷ 0xa3 ∷ 0xee ∷ 0x5e ∷ 0x6b ∷ 0x4b ∷ 0x0d ∷ 0x32 ∷ 0x55 ∷ 0xbf ∷ 0xef ∷ 0x95 ∷ 0x60
    ∷ 0x18 ∷ 0x90 ∷ 0xaf ∷ 0xd8 ∷ 0x07 ∷ 0x09 ∷ []

abbrev garbage : Digest
garbage = record { alg = 7; len = 3; content = replicate 64 0x5a }

abbrev busybox : Package
busybox = record {
  ident = 1;
  name = codes "busybox";
  version = codes "1.36.1-r2";
  hash = sha1;
  provides = [];
}

abbrev rebuilt : Package
rebuilt = record {
  ident = 2;
  name = codes "busybox";
  version = codes "1.36.1-r3";
  hash = replicate 20 0;
  provides = [];
}

abbrev below : Dependency
below = record {
  name = codes "so:libc.musl";
  version = codes "1.2_rc1";
  repository_tag = 0;
  op = 18;
  broken = false;
}

abbrev newer : Dependency
newer = record {
  name = codes "musl";
  version = codes "1.2";
  repository_tag = 1;
  op = version_equal;
  broken = false;
}

pull_digest-base64_example :
    pull_digest (some (codes "Q1" ++ base64_text sha1)) garbage
    ≡ read (some []) (sha1_of sha1 garbage)
pull_digest-base64_example = pull_digest-base64 sha1 garbage (omega arith) refl

analyze-dep_from_pkg_example :
    (dep_analyze garbage none (dep_from_pkg busybox) (some rebuilt) ≡ some satisfies)
    ↔ (sha1 ≡ replicate 20 0)
analyze-dep_from_pkg_example =
    analyze-dep_from_pkg garbage none busybox rebuilt (omega arith) refl refl

push_dep-dep_text_example :
    push_dep (buffer 64) (some (codes "edge" ∷ [])) newer
    ≡ push_blob (buffer 64) (codes "musl@edge=1.2")
unfolding version_op_string
push_dep-dep_text_example = push_dep-dep_text (buffer 64) (some (codes "edge" ∷ [])) newer

find-deps_add_example : find_dep (codes "musl") (deps_add (below ∷ []) newer) ≡ some newer
unfolding find_dep blob_compare
find-deps_add_example = find-deps_add (below ∷ []) newer (codes "musl")

pull_deps_total_example :
    pull_deps (some (codes "musl=1.2 busybox")) [] (codes "edge" ∷ []) true ≢ none
pull_deps_total_example =
    pull_deps_total (some (codes "musl=1.2 busybox")) [] (codes "edge" ∷ []) true

abbrev owner : Bytes → ℕ → Owner
owner name priority = record {
  name = name;
  origin = codes "busybox";
  to_be_removed = false;
  replaces_priority = priority;
}
