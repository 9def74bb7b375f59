-- ===== src/Ctype/Spans.antt =====
-- What `apk_blob_spn` and `apk_blob_cspn` cut: the longest prefix inside, or outside, a class.
use alpine_linux_mac_os.Base.{ℕ, Bool, true, false, not, [], ◌∷◌, ◌++◌, ◌≡◌, arith, Bytes, All}
use alpine_linux_mac_os.Ctype.{CharClass, Span, scan, is_member, blob_spn, blob_cspn}

-- The first byte, if there is one, passes the test.
abbrev pub StartsWith : (ℕ → Bool) → Bytes → Type 0
StartsWith p [] = Unit
StartsWith p (c ∷ b) = p c ≡ true

abbrev pub is_empty : Bytes → Bool
is_empty [] = true
is_empty (c ∷ b) = false

-- A cut of `b` before its first byte of which `stop` holds.
pub record IsCut (stop : ℕ → Bool) (b : Bytes) (s : Span) : Type 0 where
  pub whole : s.left ++ s.right ≡ b
  pub inside : All (λ c. stop c ≡ false) s.left
  pub stopped : StartsWith stop s.right
  pub told : s.ret ≡ not (is_empty s.right)

pub scan-IsCut : (stop : ℕ → Bool) (b : Bytes) → IsCut stop b (scan stop b)
unfolding scan
scan-IsCut stop [] = ground arith
scan-IsCut stop (ch ∷ b) = let ih = scan-IsCut stop b in ground arith

-- `apk_blob_spn` cuts a blob into the longest prefix of bytes of the class and the rest, and
-- returns 1 exactly when the rest is not empty.
pub blob_spn-IsCut :
    (b : Bytes) (ctype : CharClass) → IsCut (λ c. not (is_member ctype c)) b (blob_spn b ctype)
unfolding blob_spn
blob_spn-IsCut b ctype = scan-IsCut (λ c. not (is_member ctype c)) b

pub blob_cspn-IsCut :
    (b : Bytes) (ctype : CharClass) → IsCut (is_member ctype) b (blob_cspn b ctype)
unfolding blob_cspn
blob_cspn-IsCut b ctype = scan-IsCut (is_member ctype) b

-- The cut of a text whose first part has no stop and whose second part begins with one.
pub scan-append :
    (stop : ℕ → Bool) (l r : Bytes)
    → All (λ c. stop c ≡ false) l
    → StartsWith stop r
    → scan stop (l ++ r) ≡ record { ret = not (is_empty r); left = l; right = r }
unfolding scan
scan-append stop [] [] h k = ground arith
scan-append stop [] (c ∷ r) h k = ground arith
scan-append stop (c ∷ l) r (hc, hl) k = ground (arith, scan-append stop l r hl k)
