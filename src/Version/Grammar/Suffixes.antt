-- ===== src/Version/Grammar/Suffixes.antt =====
-- The names that `suffix_value` finds.
use alpine_linux_mac_os.Base.{
  ℕ, ◌==◌, Bool, true, false, not, ◌&&◌, Bool-cases, [], ◌∷◌, All, Bytes, codes, length, ltb,
  if◌then◌else◌, ◌≡◌, ◌≢◌, Ordering, refl, sym, subst, inl, inr,
}
use alpine_linux_mac_os.Blob.Order.{is_eq, blob_compare}
use alpine_linux_mac_os.Blob.Order.Laws.{blob_compare_iff}
use alpine_linux_mac_os.Ctype.{is_member, version_suffix}
use alpine_linux_mac_os.Version.{suffix_value}
use alpine_linux_mac_os.Version.Grammar.{IsSuffix, alpha, beta, pre, rc, cvs, svn, git, hg, patch}

equals_sound : (a b : Bytes) → is_eq (blob_compare a b) ≡ true → a ≡ b
equals_sound a b h = (blob_compare_iff a b).0 (same (blob_compare a b) h)
  where
    same : (o : Ordering) → is_eq o ≡ true → o ≡ Ordering.eq
    same Ordering.eq e = refl
    same Ordering.lt e = absurd cc
    same Ordering.gt e = absurd cc

abbrev pub Named : Bytes → ℕ → Type 0
Named s n = n ≢ 0 → IsSuffix s

choice : (q : Bool) (s : Bytes) (x y : ℕ) → Named s x → Named s y → Named s (if q then x else y)
choice true s x y h k = h
choice false s x y h k = k

one_name : (s w : Bytes) (n : ℕ) → IsSuffix w → Named s (if is_eq (blob_compare s w) then n else 0)
one_name s w n h = elim (Bool-cases (is_eq (blob_compare s w))) [
  | inl e ↦ λ k. subst IsSuffix (sym (equals_sound s w e)) h
  | inr e ↦ rw e (λ k. absurd (k refl))
]

-- `suffix_value` finds the suffixes.
pub suffix_value-Named : (s : Bytes) → Named s (suffix_value s)
unfolding suffix_value
suffix_value-Named [] = λ k. absurd (k refl)
suffix_value-Named (c ∷ r) =
    let s = c ∷ r in
    choice (c == b'a') s _ _ (one_name s (codes "alpha") 1 alpha) (
      choice (c == b'b') s _ _ (one_name s (codes "beta") 2 beta) (
        choice (c == b'c') s _ _ (one_name s (codes "cvs") 6 cvs) (
          choice (c == b'g') s _ _ (one_name s (codes "git") 8 git) (
            choice (c == b'h') s _ _ (one_name s (codes "hg") 9 hg) (
              choice (c == b'p' && ltb 1 (length s)) s _ _ (one_name s (codes "pre") 3 pre) (
                choice (c == b'p') s _ _ (one_name s (codes "p") 10 patch) (
                  choice (c == b'r') s _ _ (one_name s (codes "rc") 4 rc) (
                    choice (c == b's') s _ _ (one_name s (codes "svn") 7 svn)
                      (λ k. absurd (k refl))))))))))

pub suffix_named : (s : Bytes) → IsSuffix s → (suffix_value s == 0) ≡ false
unfolding suffix_value blob_compare
suffix_named s alpha = refl
suffix_named s beta = refl
suffix_named s pre = refl
suffix_named s rc = refl
suffix_named s cvs = refl
suffix_named s svn = refl
suffix_named s git = refl
suffix_named s hg = refl
suffix_named s patch = refl

pub suffix_inside : (s : Bytes) → IsSuffix s → All (λ c. not (is_member version_suffix c) ≡ false) s
unfolding is_member
suffix_inside s alpha = (refl, (refl, (refl, (refl, (refl, tt)))))
suffix_inside s beta = (refl, (refl, (refl, (refl, tt))))
suffix_inside s pre = (refl, (refl, (refl, tt)))
suffix_inside s rc = (refl, (refl, tt))
suffix_inside s cvs = (refl, (refl, (refl, tt)))
suffix_inside s svn = (refl, (refl, (refl, tt)))
suffix_inside s git = (refl, (refl, (refl, tt)))
suffix_inside s hg = (refl, (refl, tt))
suffix_inside s patch = (refl, tt)
