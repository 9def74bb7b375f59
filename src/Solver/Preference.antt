-- ===== src/Solver/Preference.antt =====
-- `compare_providers` of apk-tools/src/solver.c, by the sign of its result.
pub mod Laws
use alpine_linux_mac_os.Base.{
  ℕ, zero, suc, ◌+◌, ◌-◌, ◌/◌, ◌%◌, ◌^◌, compare, Ordering, Bool, true, false, not, ◌&&◌, ◌||◌,
  some, none, ltb, ◌==◌, if◌then◌else◌, and_then, Bytes,
}
use alpine_linux_mac_os.Version.Operators.{version_less, version_greater}
use alpine_linux_mac_os.Version.Compare.{version_compare}
use alpine_linux_mac_os.Solver.{
  Database, PackageInfo, PackageState, State, Choice, Flags, join, is_null, default_pinning_mask,
}

abbrev pub compare_bool : Bool → Bool → Ordering
compare_bool true false = Ordering.gt
compare_bool false true = Ordering.lt
compare_bool _ _ = Ordering.eq

-- `b - a` of two `unsigned int`, as an `int`.
unfoldable pub difference : ℕ → ℕ → Ordering
difference b a =
    let d = (b + 2 ^ 32 - a) % 2 ^ 32 in
    if d == 0 then Ordering.eq else if ltb d (2 ^ 31) then Ordering.gt else Ordering.lt

-- The switch on a comparison of versions.
unfoldable pub compare_versions : Bytes → Bytes → Ordering
unfolding version_compare
compare_versions a b =
    let r = version_compare (some a) (some b) in
    if r == version_less
    then Ordering.lt
    else if r == version_greater
    then Ordering.gt
    else Ordering.eq

-- `ffs` of a number of 32 bits, by the bits left.
ffs_from : ℕ → ℕ → ℕ → ℕ
ffs_from zero i n = 0
ffs_from (suc bits) i n =
    let later = ffs_from bits (i + 1) (n / 2) in if n % 2 == 1 then i else later

unfoldable pub ffs : ℕ → ℕ
unfolding ffs_from
ffs n = ffs_from 32 1 n

abbrev pub is_installed : PackageInfo → Bool
is_installed i = elim (i.ipkg) [ none ↦ false | some _ ↦ true ]

-- A step that the code takes under a condition only.
abbrev pub only_if : Bool → Ordering → Ordering
only_if true o = o
only_if false o = Ordering.eq

-- The comparisons for the latest version.
unfoldable pub prefer_latest : Flags → PackageState → PackageState → Ordering
prefer_latest flags a b = and_then (compare_bool a.tag_ok b.tag_ok) (
    if flags.available
    then compare_bool a.pkg_available b.pkg_available
    else only_if flags.reinstall (compare_bool a.pkg_selectable b.pkg_selectable))

-- The comparisons otherwise, up to the versions. `same` tells that the packages have one name or
-- that one of the two versions is not null.
unfoldable pub prefer_existing :
    Bool → Flags → Bool → PackageState → PackageState → Bool → Bool → Ordering
unfolding difference
prefer_existing preupgrade flags same a b has_a has_b =
    and_then (compare_bool a.pkg_selectable b.pkg_selectable) (
      and_then (compare_bool a.dependencies_used b.dependencies_used) (
        and_then (difference b.conflicts a.conflicts) (
          and_then
            (only_if ((preupgrade && not flags.upgrade) || flags.installed)
              (compare_bool has_a has_b))
            (and_then (compare_bool a.tag_ok b.tag_ok) (
              and_then (only_if flags.available (compare_bool a.pkg_available b.pkg_available)) (
                and_then (compare_bool a.tag_preferred b.tag_preferred) (
                  only_if (not (flags.remove || flags.upgrade) && same)
                    (compare_bool has_a has_b))))))))

-- The comparisons behind these.
unfoldable pub prefer_version :
    Flags → Bytes → Bytes → PackageInfo → PackageInfo → PackageState → PackageState → Ordering
unfolding compare_versions ffs
prefer_version flags va vb ia ib a b = and_then (compare_versions va vb) (
    and_then (only_if (ia.name == ib.name) (compare_versions ia.matched.version ib.matched.version))
      (and_then (compare ia.provider_priority ib.provider_priority) (
        and_then (only_if (not flags.remove) (compare_bool (is_installed ia) (is_installed ib))) (
          and_then (compare_bool a.pkg_selectable b.pkg_selectable)
            (compare (ffs ib.repos) (ffs ia.repos))))))

-- Two packages with the versions by which they provide a name.
unfoldable pub compare_packages : Database → State → ℕ → Bytes → ℕ → Bytes → Ordering
unfolding prefer_latest prefer_existing prefer_version
compare_packages db s pa va pb vb =
    let ia = db.pkg pa in
    let ib = db.pkg pb in
    let a = s.pkgs pa in
    let b = s.pkgs pb in
    let flags = join a.solver_flags b.solver_flags in
    let same = ia.name == ib.name || (not (is_null va) || not (is_null vb)) in
    and_then
      (if flags.latest
          && (a.pinning_allowed == default_pinning_mask
              && b.pinning_allowed == default_pinning_mask)
        then prefer_latest flags a b
        else prefer_existing db.performing_preupgrade flags same a b (is_installed ia)
            (is_installed ib))
      (prefer_version flags va vb ia ib a b)

-- `compare_providers`.
unfoldable pub compare_providers : Database → State → Choice → Choice → Ordering
unfolding compare_packages
compare_providers db s pa pb = elim (pa.pkg) as (λ _. Ordering) [
  | none ↦ elim (pb.pkg) as (λ _. Ordering) [ none ↦ Ordering.eq | some b ↦ Ordering.lt ]
  | some a ↦ elim (pb.pkg) as (λ _. Ordering) [
    | none ↦ Ordering.gt
    | some b ↦ compare_packages db s a pa.version b pb.version
  ]
]
