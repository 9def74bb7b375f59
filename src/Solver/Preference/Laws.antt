-- ===== src/Solver/Preference/Laws.antt =====
-- The laws of `compare_providers` of apk-tools/src/solver.c, and of the loop of `select_package`.
use alpine_linux_mac_os.Base.{
  ℕ, ◌^◌, ◌<◌, compare, Ordering, Bool, true, false, not, ◌&&◌, ◌||◌, some, ◌==◌, if◌then◌else◌,
  and_then, flip, Bytes, ◌≡◌, refl, ap, ◌∙◌, arith, Option-cases, inl, inr,
}
use alpine_linux_mac_os.Version.Operators.{version_less, version_greater}
use alpine_linux_mac_os.Version.Compare.{version_compare}
use alpine_linux_mac_os.Version.Order.{version_compare_swap, mirrored}
use alpine_linux_mac_os.Solver.{
  Database, PackageInfo, PackageState, State, Choice, Flags, join, is_null, default_pinning_mask,
}
use alpine_linux_mac_os.Solver.Preference.{
  compare_bool, difference, compare_versions, ffs, is_installed, only_if, prefer_latest,
  prefer_existing, prefer_version, compare_packages, compare_providers,
}

and_then-flip : (a b c d : Ordering) → a ≡ flip c → b ≡ flip d → and_then a b ≡ flip (and_then c d)
and_then-flip a b c d h k = ground arith

only_if-flip : (t : Bool) (a c : Ordering) → a ≡ flip c → only_if t a ≡ flip (only_if t c)
only_if-flip true a c h = h
only_if-flip false a c h = refl

if-flip :
    (t : Bool) (a b c d : Ordering)
    → a ≡ flip c
    → b ≡ flip d
    → (if t then a else b) ≡ flip (if t then c else d)
if-flip true a b c d h k = h
if-flip false a b c d h k = k

compare_bool_swap : (a b : Bool) → compare_bool b a ≡ flip (compare_bool a b)
compare_bool_swap true true = refl
compare_bool_swap true false = refl
compare_bool_swap false true = refl
compare_bool_swap false false = refl

compare_swap : (a b : ℕ) → compare b a ≡ flip (compare a b)
compare_swap a b = ground arith

difference_swap : (a b : ℕ) → a < 2 ^ 31 → b < 2 ^ 31 → difference a b ≡ flip (difference b a)
unfolding difference
difference_swap a b h k = ground arith

mirrored_sign :
    (r : ℕ)
    → (if mirrored r == version_less
        then Ordering.lt
        else if mirrored r == version_greater
        then Ordering.gt
        else Ordering.eq)
      ≡ flip (
          if r == version_less
          then Ordering.lt
          else if r == version_greater
          then Ordering.gt
          else Ordering.eq)
mirrored_sign r = ground arith

compare_versions_swap : (a b : Bytes) → compare_versions b a ≡ flip (compare_versions a b)
unfolding compare_versions
compare_versions_swap a b =
    rw (compare_versions, version_compare_swap a b)
      (mirrored_sign (version_compare (some a) (some b)))

or_swap : (a b : Bool) → (a || b) ≡ (b || a)
or_swap true true = refl
or_swap true false = refl
or_swap false true = refl
or_swap false false = refl

join_swap : (f g : Flags) → join f g ≡ join g f
join_swap f g =
    rw
      (
        or_swap f.upgrade g.upgrade,
        or_swap f.available g.available,
        or_swap f.reinstall g.reinstall,
        or_swap f.latest g.latest,
        or_swap f.ignore_conflict g.ignore_conflict,
        or_swap f.installed g.installed,
        or_swap f.remove g.remove,
      )
      refl

equal_swap : (m n : ℕ) → (m == n) ≡ (n == m)
equal_swap m n = ground arith

and_swap : (a b : Bool) → (a && b) ≡ (b && a)
and_swap true true = refl
and_swap true false = refl
and_swap false true = refl
and_swap false false = refl

prefer_latest_swap :
    (f : Flags) (a b : PackageState) → prefer_latest f b a ≡ flip (prefer_latest f a b)
unfolding prefer_latest
prefer_latest_swap f a b = and_then-flip _ _ _ _ (compare_bool_swap a.tag_ok b.tag_ok) (
    if-flip f.available _ _ _ _ (compare_bool_swap a.pkg_available b.pkg_available)
      (only_if-flip f.reinstall _ _ (compare_bool_swap a.pkg_selectable b.pkg_selectable)))

prefer_existing_swap :
    (preupgrade : Bool) (f : Flags) (same : Bool) (a b : PackageState) (x y : Bool)
    → a.conflicts < 2 ^ 31
    → b.conflicts < 2 ^ 31
    → prefer_existing preupgrade f same b a y x ≡ flip (prefer_existing preupgrade f same a b x y)
unfolding prefer_existing
prefer_existing_swap preupgrade f same a b x y h k =
    and_then-flip _ _ _ _ (compare_bool_swap a.pkg_selectable b.pkg_selectable) (
      and_then-flip _ _ _ _ (compare_bool_swap a.dependencies_used b.dependencies_used) (
        and_then-flip _ _ _ _ (difference_swap a.conflicts b.conflicts h k) (
          and_then-flip _ _ _ _
            (only_if-flip ((preupgrade && not f.upgrade) || f.installed) _ _
              (compare_bool_swap x y))
            (and_then-flip _ _ _ _ (compare_bool_swap a.tag_ok b.tag_ok) (
              and_then-flip _ _ _ _
                (only_if-flip f.available _ _ (compare_bool_swap a.pkg_available b.pkg_available))
                (and_then-flip _ _ _ _ (compare_bool_swap a.tag_preferred b.tag_preferred) (
                  only_if-flip (not (f.remove || f.upgrade) && same) _ _
                    (compare_bool_swap x y))))))))

prefer_version_swap :
    (f : Flags) (va vb : Bytes) (ia ib : PackageInfo) (a b : PackageState)
    → prefer_version f vb va ib ia b a ≡ flip (prefer_version f va vb ia ib a b)
unfolding prefer_version
prefer_version_swap f va vb ia ib a b = and_then-flip _ _ _ _ (compare_versions_swap va vb) (
    and_then-flip _ _ _ _
      (ap (λ t. only_if t (compare_versions ib.matched.version ia.matched.version))
          (equal_swap ib.name ia.name)
        ∙ only_if-flip (ia.name == ib.name) _ _
            (compare_versions_swap ia.matched.version ib.matched.version))
      (and_then-flip _ _ _ _ (compare_swap ia.provider_priority ib.provider_priority) (
        and_then-flip _ _ _ _
          (only_if-flip (not f.remove) _ _ (compare_bool_swap (is_installed ia) (is_installed ib)))
          (and_then-flip _ _ _ _ (compare_bool_swap a.pkg_selectable b.pkg_selectable)
            (compare_swap (ffs ib.repos) (ffs ia.repos))))))

-- The comparison of two packages, for flags and tests that are given.
abbrev compare_with :
    Bool
    → Flags
    → Bool
    → Bool
    → Bytes
    → Bytes
    → PackageInfo
    → PackageInfo
    → PackageState
    → PackageState
    → Ordering
compare_with preupgrade f same pinned va vb ia ib a b =
    and_then
      (if f.latest && pinned
        then prefer_latest f a b
        else prefer_existing preupgrade f same a b (is_installed ia) (is_installed ib))
      (prefer_version f va vb ia ib a b)

compare_with_swap :
    (preupgrade : Bool) (f : Flags) (same pinned : Bool) (va vb : Bytes) (ia ib : PackageInfo)
    (a b : PackageState)
    → a.conflicts < 2 ^ 31
    → b.conflicts < 2 ^ 31
    → compare_with preupgrade f same pinned vb va ib ia b a
      ≡ flip (compare_with preupgrade f same pinned va vb ia ib a b)
compare_with_swap preupgrade f same pinned va vb ia ib a b h k =
    and_then-flip _ _ _ _
      (if-flip (f.latest && pinned) _ _ _ _ (prefer_latest_swap f a b)
        (prefer_existing_swap preupgrade f same a b (is_installed ia) (is_installed ib) h k))
      (prefer_version_swap f va vb ia ib a b)

compare_packages_swap :
    (db : Database) (s : State) (pa pb : ℕ) (va vb : Bytes)
    → (s.pkgs pa).conflicts < 2 ^ 31
    → (s.pkgs pb).conflicts < 2 ^ 31
    → compare_packages db s pb vb pa va ≡ flip (compare_packages db s pa va pb vb)
unfolding compare_packages
compare_packages_swap db s pa pb va vb h k =
    let ia = db.pkg pa in
    let ib = db.pkg pb in
    let a = s.pkgs pa in
    let b = s.pkgs pb in
    let pinned =
      a.pinning_allowed == default_pinning_mask && b.pinning_allowed == default_pinning_mask in
    let same = ia.name == ib.name || (not (is_null va) || not (is_null vb)) in
    ap
      (λ f.
        compare_with db.performing_preupgrade f
          (ib.name == ia.name || (not (is_null vb) || not (is_null va)))
          (b.pinning_allowed == default_pinning_mask && a.pinning_allowed == default_pinning_mask)
          vb va ib ia b a)
      (join_swap b.solver_flags a.solver_flags)
    ∙ (ap
          (λ t.
            compare_with db.performing_preupgrade (join a.solver_flags b.solver_flags) t
              (b.pinning_allowed == default_pinning_mask
                && a.pinning_allowed == default_pinning_mask)
              vb va ib ia b a)
          (ap (λ t. t || (not (is_null vb) || not (is_null va))) (equal_swap ib.name ia.name)
            ∙ ap (λ t. ia.name == ib.name || t) (or_swap (not (is_null vb)) (not (is_null va))))
        ∙ (ap
              (λ t.
                compare_with db.performing_preupgrade (join a.solver_flags b.solver_flags) same t vb
                  va ib ia b a)
              (and_swap (b.pinning_allowed == default_pinning_mask)
                (a.pinning_allowed == default_pinning_mask))
            ∙ compare_with_swap db.performing_preupgrade (join a.solver_flags b.solver_flags) same
                pinned va vb ia ib a b h k))

-- Exchanging two providers exchanges the sign of their comparison, where fewer than 2 ^ 31 conflicts
-- are counted for each package.
pub compare_providers_swap :
    (db : Database) (s : State) (x y : Choice)
    → ((p : ℕ) → (s.pkgs p).conflicts < 2 ^ 31)
    → compare_providers db s y x ≡ flip (compare_providers db s x y)
unfolding compare_providers
compare_providers_swap db s x y h = elim (Option-cases x.pkg) [
  | inl e ↦ elim (Option-cases y.pkg) [
    | inl k ↦ rw (compare_providers, e, k, e) refl
    | inr (q, k) ↦ rw (compare_providers, e, k, e) refl
  ]
  | inr (p, e) ↦ elim (Option-cases y.pkg) [
    | inl k ↦ rw (compare_providers, e, k, e) refl
    | inr (q, k) ↦
        rw (compare_providers, e, k, e)
          (compare_packages_swap db s p q x.version y.version (h p) (h q))
  ]
]
