-- ===== src/Dependency/Syntax.antt =====
-- `apk_dep_parse`, `apk_blob_pull_dep` and `apk_blob_pull_deps` of package.c.
use alpine_linux_mac_os.Base.{
  ℕ, zero, suc, ◌+◌, ◌%◌, ◌^◌, bit_and, bit_or, Bool, true, false, not, ◌&&◌, Option, some, none,
  [], ◌∷◌, ◌++◌, List, Bytes, codes, length, ◌==◌, if◌then◌else◌,
}
use alpine_linux_mac_os.Ctype.{blob_spn, blob_cspn, dependency_comparer, dependency_separator}
use alpine_linux_mac_os.Blob.{Blob, bytes}
use alpine_linux_mac_os.Blob.Search.{blob_split}
use alpine_linux_mac_os.Blob.Pull.{pull_blob_match}
use alpine_linux_mac_os.Version.{version_validate}
use alpine_linux_mac_os.Version.Operators.{
  version_conflict, depmask_any, depmask_checksum, without_conflict, version_result_mask,
}
use alpine_linux_mac_os.Dependency.{Dependency}
use alpine_linux_mac_os.Dependency.Tags.{Tags, get_tag_id}

-- What `apk_dep_parse` stores behind its pointers.
pub record Parsed : Type 0 where
  pub name : Bytes
  pub op : ℕ
  pub version : Blob

-- The part behind "!", with the operator's bits so far.
unfoldable pub parse_rest : Bytes → ℕ → Option Parsed
unfolding blob_spn blob_cspn version_result_mask
parse_rest spec op =
    let cut = blob_cspn spec dependency_comparer in
    let sign = blob_spn cut.right dependency_comparer in
    let op' = bit_or op (version_result_mask sign.left) in
    if cut.ret
    then (if not sign.ret
        then none
        else if without_conflict op' == 0
        then none
        else some (record { name = cut.left; op = op'; version = some sign.right }))
    else some (record { name = spec; op = bit_or op depmask_any; version = none })

-- `apk_dep_parse`; `none` for -APKE_DEPENDENCY_FORMAT.
unfoldable pub dep_parse : Blob → Option Parsed
unfolding parse_rest pull_blob_match
dep_parse none = none
dep_parse (some spec) = elim (pull_blob_match spec (codes "!")) [
  | some rest ↦ parse_rest rest version_conflict
  | none ↦ parse_rest spec 0
]

-- What `apk_blob_pull_dep` leaves: the rest of the blob, the dependency, which is `none` where its
-- name is NULL, and the table of tags.
pub record DepPull : Type 0 where
  pub rest : Blob
  pub dep : Option Dependency
  pub tags : Tags

-- The six bits of `repository_tag`; -1 is 63 there.
abbrev tag_bits : Option ℕ → ℕ
tag_bits none = 63
tag_bits (some i) = i % 2 ^ 6

-- `broken`: a version that is compared and does not validate.
abbrev is_broken : Parsed → Bool
is_broken p =
    not (bit_and p.op depmask_checksum == depmask_checksum)
    && not (version_validate (bytes p.version))

unfoldable pub with_tag : Tags → Blob → Parsed → Bool → Option (Bytes × Bytes) → DepPull
unfolding get_tag_id
with_tag tags rest p allow_tag none = record {
  rest = rest;
  dep = some (record {
    name = p.name;
    version = bytes p.version;
    repository_tag = 0;
    op = p.op;
    broken = is_broken p;
  });
  tags = tags;
}
with_tag tags rest p false (some (name, tag)) = record { rest = none; dep = none; tags = tags }
with_tag tags rest p true (some (name, tag)) =
    let (tags', id) = get_tag_id tags (some tag) in
    record {
      rest = rest;
      dep = some (record {
        name = name;
        version = bytes p.version;
        repository_tag = tag_bits id;
        op = p.op;
        broken = is_broken p;
      });
      tags = tags';
    }

-- `apk_blob_pull_dep`.
unfoldable pub pull_dep : Blob → Tags → Bool → DepPull
unfolding dep_parse with_tag blob_split
pull_dep none tags allow_tag = record { rest = none; dep = none; tags = tags }
pull_dep (some b) tags allow_tag =
    let cut = blob_cspn b dependency_separator in
    let rest = (blob_spn cut.right dependency_separator).right in
    elim (dep_parse (some cut.left)) [
      | none ↦ record { rest = none; dep = none; tags = tags }
      | some p ↦ with_tag tags (some rest) p allow_tag (blob_split p.name (codes "@"))
    ]

-- The result of `apk_blob_pull_deps`: 0, -APKE_DEPENDENCY_FORMAT or -APKE_PKGVERSION_FORMAT.
pub data DepsResult : Type 0 where
  fine bad_format bad_version : DepsResult

pub record DepsPull : Type 0 where
  pub rest : Blob
  pub deps : List Dependency
  pub tags : Tags
  pub result : DepsResult

-- The loop of `apk_blob_pull_deps`, by rounds. Each round takes at least one byte.
unfoldable pub deps_loop : ℕ → Blob → List Dependency → Tags → Bool → DepsResult → Option DepsPull
unfolding pull_dep
deps_loop zero b deps tags allow_tag rc = none
deps_loop (suc fuel) b deps tags allow_tag rc =
    let p = pull_dep b tags allow_tag in
    let stop = some (record { rest = b; deps = deps; tags = tags; result = rc }) in
    let next = elim (p.dep) as (λ _. Option DepsPull) [
      | none ↦ deps_loop fuel none deps p.tags allow_tag bad_format
      | some dep ↦
          deps_loop fuel p.rest (deps ++ dep ∷ []) p.tags allow_tag
            (if dep.broken then bad_version else rc)
    ] in
    if length (bytes b) == 0 then stop else next

-- `apk_blob_pull_deps`.
unfoldable pub pull_deps : Blob → List Dependency → Tags → Bool → Option DepsPull
unfolding deps_loop
pull_deps b deps tags allow_tag = deps_loop (length (bytes b) + 1) b deps tags allow_tag fine
