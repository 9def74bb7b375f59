-- ===== src/Dependency/Matching.antt =====
-- `apk_dep_from_pkg`, `apk_dep_is_provided`, `apk_dep_is_materialized` and `apk_dep_analyze` of
-- package.c. A package's `ident` stands for its address, which the code compares.
use alpine_linux_mac_os.Base.{
  ℕ, Bool, true, false, not, ◌&&◌, Option, some, none, [], ◌∷◌, List, Bytes, ◌==◌, if◌then◌else◌,
}
use mathlib.Core.Option
use alpine_linux_mac_os.Blob.{bytes, buffer, blob_pushed}
use alpine_linux_mac_os.Blob.Order.{blob_compare, is_eq}
use alpine_linux_mac_os.Digest.{Digest, read, outside, digest_blob, push_hash, pull_digest}
use alpine_linux_mac_os.Version.Operators.{depmask_checksum}
use alpine_linux_mac_os.Version.Compare.{version_match}
use alpine_linux_mac_os.Dependency.{Dependency, dep_conflict}
use alpine_linux_mac_os.Dependency.Lists.{same_name}

-- The fields of `struct apk_package` that dependencies are matched against. `hash` is the blob of
-- `apk_pkg_hash_blob`.
pub record Package : Type 0 where
  pub ident : ℕ
  pub name : Bytes
  pub version : Bytes
  pub hash : Bytes
  pub provides : List Dependency

-- `struct apk_provider`, with a package.
pub record Provider : Type 0 where
  pub pkg : Package
  pub version : Bytes

-- `apk_dep_from_pkg`: the checksum is written into an array of 64 bytes.
unfoldable pub dep_from_pkg : Package → Dependency
unfolding push_hash blob_pushed
dep_from_pkg pkg = record {
  name = pkg.name;
  version = bytes (blob_pushed (push_hash (buffer 64) pkg.hash));
  repository_tag = 0;
  op = depmask_checksum;
  broken = false;
}

-- `apk_dep_match_checksum`. `d` is the digest on the stack before the call, which nothing sets;
-- `none` where the checksum is read behind its end.
unfoldable pub dep_match_checksum : Digest → Dependency → Package → Option Bool
unfolding pull_digest blob_compare
dep_match_checksum d dep pkg = elim (pull_digest (some dep.version) d) [
  | outside ↦ none
  | read b d' ↦ some (is_eq (blob_compare (digest_blob d') pkg.hash))
]

-- `apk_dep_is_provided`.
unfoldable pub dep_is_provided :
    Digest → Option Package → Dependency → Option Provider → Option Bool
unfolding dep_match_checksum version_match
dep_is_provided d deppkg dep none = some (dep_conflict dep)
dep_is_provided d deppkg dep (some p) =
    let itself = elim deppkg as (λ _. Bool) [ none ↦ false | some q ↦ q.ident == p.pkg.ident ] in
    if dep_conflict dep && itself
    then some true
    else if dep.op == depmask_checksum
    then dep_match_checksum d dep p.pkg
    else some (version_match (some p.version) dep.op (some dep.version))

-- `apk_dep_is_materialized`.
unfoldable pub dep_is_materialized : Digest → Dependency → Option Package → Option Bool
unfolding dep_match_checksum version_match
dep_is_materialized d dep none = some (dep_conflict dep)
dep_is_materialized d dep (some pkg) =
    if not (same_name dep.name pkg.name)
    then some (dep_conflict dep)
    else if dep.op == depmask_checksum
    then dep_match_checksum d dep pkg
    else some (version_match (some pkg.version) dep.op (some dep.version))

-- APK_DEP_IRRELEVANT, APK_DEP_SATISFIES and APK_DEP_CONFLICTS.
pub data Relation : Type 0 where
  irrelevant satisfies conflicts : Relation

abbrev pub relation_of : Bool → Relation
relation_of true = satisfies
relation_of false = conflicts

-- The loop of `apk_dep_analyze` over what the package provides.
analyze_provides :
    Digest → Option Package → Dependency → Package → List Dependency → Option Relation
unfolding dep_is_provided
analyze_provides d deppkg dep pkg [] = some irrelevant
analyze_provides d deppkg dep pkg (p ∷ provides) =
    let provider : Provider = record { pkg = pkg; version = p.version } in
    if same_name p.name dep.name
    then Option.map relation_of (dep_is_provided d deppkg dep (some provider))
    else analyze_provides d deppkg dep pkg provides

-- `apk_dep_analyze`.
unfoldable pub dep_analyze : Digest → Option Package → Dependency → Option Package → Option Relation
unfolding analyze_provides dep_is_materialized
dep_analyze d deppkg dep none = some irrelevant
dep_analyze d deppkg dep (some pkg) =
    if same_name dep.name pkg.name
    then Option.map relation_of (dep_is_materialized d dep (some pkg))
    else analyze_provides d deppkg dep pkg pkg.provides
