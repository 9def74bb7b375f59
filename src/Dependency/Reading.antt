-- ===== src/Dependency/Reading.antt =====
-- The loop of `apk_blob_pull_deps` ends.
use alpine_linux_mac_os.Base.{
  ℕ, zero, suc, ◌+◌, ◌≤◌, ◌<◌, Bool, true, false, not, Option, some, none, [], ◌∷◌, ◌++◌, List,
  Bytes, codes, length, ◌==◌, if◌then◌else◌, ◌≡◌, ◌≢◌, arith, Bool-cases, Option-cases, inl, inr,
}
use alpine_linux_mac_os.Ctype.{
  CharClass, scan, is_member, blob_spn, blob_cspn, dependency_separator,
}
use alpine_linux_mac_os.Blob.{Blob, bytes}
use alpine_linux_mac_os.Blob.Search.{blob_split}
use alpine_linux_mac_os.Dependency.{Dependency}
use alpine_linux_mac_os.Dependency.Tags.{Tags}
use alpine_linux_mac_os.Dependency.Syntax.{
  Parsed, dep_parse, with_tag, pull_dep, DepsResult, fine, bad_format, bad_version, deps_loop,
  pull_deps,
}

scan_right : (p : ℕ → Bool) (b : Bytes) → length (scan p b).right ≤ length b
unfolding scan
scan_right p [] = omega arith
scan_right p (c ∷ b) = ground (arith, scan_right p b)

-- The text behind a dependency and its separators is shorter.
rest_shorter :
    (ctype : CharClass) (c : ℕ) (b : Bytes)
    → length (blob_spn (blob_cspn (c ∷ b) ctype).right ctype).right ≤ length b
unfolding blob_spn blob_cspn scan
rest_shorter ctype c b = elim (Bool-cases (is_member ctype c)) [
  | inl e ↦ rw (e, e) (scan_right (λ x. not (is_member ctype x)) b)
  | inr e ↦
      let k = scan_right (λ x. is_member ctype x) b in
      let l = scan_right (λ x. not (is_member ctype x)) (scan (λ x. is_member ctype x) b).right in
      rw (e) (omega (arith, k, l))
]

-- A pull of a dependency leaves a null blob or the text behind the separators.
with_tag-rest :
    (tags : Tags) (rest : Bytes) (p : Parsed) (allow_tag : Bool) (t : Option (Bytes × Bytes))
    → length (bytes (with_tag tags (some rest) p allow_tag t).rest) ≤ length rest
unfolding with_tag
with_tag-rest tags rest p allow_tag none = omega arith
with_tag-rest tags rest p false (some (name, tag)) = omega arith
with_tag-rest tags rest p true (some (name, tag)) = omega arith

pull_dep_shorter :
    (c : ℕ) (b : Bytes) (tags : Tags) (allow_tag : Bool)
    → length (bytes (pull_dep (some (c ∷ b)) tags allow_tag).rest) ≤ length b
unfolding pull_dep
pull_dep_shorter c b tags allow_tag =
    elim (Option-cases (dep_parse (some (blob_cspn (c ∷ b) dependency_separator).left))) [
      | inl e ↦ rw (pull_dep, e) (omega arith)
      | inr (p, e) ↦
          let rest =
            (blob_spn (blob_cspn (c ∷ b) dependency_separator).right dependency_separator).right in
          let k = with_tag-rest tags rest p allow_tag (blob_split p.name (codes "@")) in
          let l = rest_shorter dependency_separator c b in rw (pull_dep, e) (omega (arith, k, l))
    ]

not_zero : (n : ℕ) → (suc n == 0) ≡ false
not_zero n = ground arith

loop_total :
    (fuel : ℕ) (b : Blob) (deps : List Dependency) (tags : Tags) (allow_tag : Bool)
    (rc : DepsResult)
    → length (bytes b) < fuel
    → deps_loop fuel b deps tags allow_tag rc ≢ none
unfolding deps_loop
loop_total zero b deps tags allow_tag rc h = ground arith
loop_total (suc fuel) none deps tags allow_tag rc h = ground arith
loop_total (suc fuel) (some []) deps tags allow_tag rc h = ground arith
loop_total (suc fuel) (some (c ∷ b)) deps tags allow_tag rc h =
    let p = pull_dep (some (c ∷ b)) tags allow_tag in
    let k = pull_dep_shorter c b tags allow_tag in
    elim (Option-cases (pull_dep (some (c ∷ b)) tags allow_tag).dep) [
      | inl e ↦
          rw (deps_loop, e, not_zero (length b))
            (loop_total fuel none deps p.tags allow_tag bad_format (omega arith))
      | inr (dep, e) ↦
          rw (deps_loop, e, not_zero (length b))
            (loop_total fuel p.rest (deps ++ dep ∷ []) p.tags allow_tag
              (if dep.broken then bad_version else rc) (omega (arith, k)))
    ]

-- For every blob, list and table of tags, the loop of `apk_blob_pull_deps` ends: the rounds that the
-- model allows are enough.
pub pull_deps_total :
    (b : Blob) (deps : List Dependency) (tags : Tags) (allow_tag : Bool)
    → pull_deps b deps tags allow_tag ≢ none
unfolding pull_deps
pull_deps_total b deps tags allow_tag =
    loop_total (length (bytes b) + 1) b deps tags allow_tag fine (omega arith)
