-- ===== src/Blob/Search/Splits.antt =====
-- What a successful or failing search says of the blob.
use alpine_linux_mac_os.Base.{
  ℕ, zero, suc, ◌+◌, ◌<◌, ◌≤◌, none, some, true, false, [], ◌∷◌, ◌++◌, ◌≡◌, ◌≢◌, arith, Bytes,
  length, take, drop, ◌==◌, Bool-cases, Option-cases, inl, inr, take-append-drop, take-append_self,
  length-take, drop-append_self, All, sym, subst,
}
use Prim.Native.Nat.add
use alpine_linux_mac_os.Blob.Order.{memcmp, blob_starts_with}
use alpine_linux_mac_os.Blob.Order.Laws.{blob_starts_with_iff}
use alpine_linux_mac_os.Blob.Search.{blob_contains, blob_split}

-- An offset that is found is the first one at which the needle stands.
pub record IsFirst (b needle : Bytes) (i : ℕ) : Type 0 where
  pub fits : i + length needle ≤ length b
  pub here : blob_starts_with (drop i b) needle ≡ true
  pub earlier : (j : ℕ) → j < i → blob_starts_with (drop j b) needle ≡ false

starts_with_fits : (a b : Bytes) → blob_starts_with a b ≡ true → length b ≤ length a
starts_with_fits a b h = ((blob_starts_with_iff a b).0 h).0

contains-here : (b needle : Bytes) → blob_starts_with b needle ≡ true → IsFirst b needle 0
contains-here b needle h = record {
  fits = omega (arith, starts_with_fits b needle h);
  here = h;
  earlier = λ j k. elim k [ ];
}

contains-later :
    (c : ℕ) (b needle : Bytes) (i : ℕ)
    → blob_starts_with (c ∷ b) needle ≡ false
    → IsFirst b needle i
    → IsFirst (c ∷ b) needle (suc i)
contains-later c b needle i h f = record {
  fits = omega (arith, f.fits);
  here = f.here;
  earlier = λ j. earlier j;
}
  where
    earlier : (j : ℕ) → j < suc i → blob_starts_with (drop j (c ∷ b)) needle ≡ false
    earlier zero k = h
    earlier (suc j) k = f.earlier j (omega arith)

contains_cons :
    (c : ℕ) (b needle : Bytes) (i : ℕ)
    → ((j : ℕ) → blob_contains b needle ≡ some j → IsFirst b needle j)
    → blob_contains (c ∷ b) needle ≡ some i
    → IsFirst (c ∷ b) needle i
unfolding blob_contains
contains_cons c b needle i ih h = elim (Bool-cases (blob_starts_with (c ∷ b) needle)) [
  | inl s ↦
      let e : 0 ≡ i = ground arith in
      subst (IsFirst (c ∷ b) needle) e (contains-here (c ∷ b) needle s)
  | inr n ↦ elim (Option-cases (blob_contains b needle)) [
    | inl m ↦ ground arith
    | inr (j, m) ↦
        let e : suc j ≡ i = ground arith in
        subst (IsFirst (c ∷ b) needle) e (contains-later c b needle j n (ih j m))
  ]
]

-- `apk_blob_contains` finds the first place at which the needle stands.
pub blob_contains-IsFirst :
    (b needle : Bytes) (i : ℕ) → blob_contains b needle ≡ some i → IsFirst b needle i
blob_contains-IsFirst [] needle i h = elim (Bool-cases (blob_starts_with [] needle)) [
  | inl s ↦
      let e : 0 ≡ i = unfold blob_contains in ground arith in
      subst (IsFirst [] needle) e (contains-here [] needle s)
  | inr n ↦ unfold blob_contains in ground arith
]
blob_contains-IsFirst (c ∷ b) needle i h =
    contains_cons c b needle i (λ j. blob_contains-IsFirst b needle j) h

-- It returns -1 only where the needle stands nowhere.
pub blob_contains-none :
    (b needle : Bytes) (i : ℕ)
    → blob_contains b needle ≡ none
    → i ≤ length b
    → blob_starts_with (drop i b) needle ≡ false
unfolding blob_contains
blob_contains-none [] needle zero h k = ground arith
blob_contains-none [] needle (suc i) h k = absurd (omega arith)
blob_contains-none (c ∷ b) needle zero h k = ground arith
blob_contains-none (c ∷ b) needle (suc i) h k = ground (arith, blob_contains-none b needle i)

drop-drop : (m n : ℕ) (b : Bytes) → drop n (drop m b) ≡ drop (m + n) b
drop-drop zero n b = rw add.zero
drop-drop (suc m) zero [] = ground arith
drop-drop (suc m) (suc n) [] = rw add.suc
drop-drop (suc m) n (c ∷ b) = rw add.suc (drop-drop m n b)

cut-whole :
    (b split : Bytes) (i : ℕ)
    → blob_starts_with (drop i b) split ≡ true
    → take i b ++ (split ++ drop (i + length split) b) ≡ b
cut-whole b split i h = rw (← drop-drop i (length split) b) (
    rw (← ((blob_starts_with_iff (drop i b) split).0 h).1)
      (cut_here b i (length split) ((blob_starts_with_iff (drop i b) split).0 h).0))
  where
    cut_here :
        (b : Bytes) (i n : ℕ)
        → n ≤ length (drop i b)
        → take i b ++ (take n (drop i b) ++ drop (length (take n (drop i b))) (drop i b)) ≡ b
    cut_here b i n k =
        let e : length (take n (drop i b)) ≡ n = omega (arith, length-take n (drop i b)) in
        rw (e, take-append-drop n (drop i b)) (take-append-drop i b)

-- Where `apk_blob_split` finds the separator: the two parts and the separator between them are the
-- blob, and no separator begins in front of the one that was found.
pub blob_split_sound :
    (b split l r : Bytes)
    → blob_split b split ≡ some (l, r)
    → (l ++ (split ++ r) ≡ b) × IsFirst b split (length l)
unfolding blob_split
blob_split_sound b split l r h = elim (Option-cases (blob_contains b split)) [
  | inl m ↦ ground arith
  | inr (i, m) ↦
      let f = blob_contains-IsFirst b split i m in
      let el : take i b ≡ l = ground arith in
      let er : drop (i + length split) b ≡ r = ground arith in
      let n : length l ≡ i = rw (← el) (omega (arith, length-take i b, f.fits)) in
      (rw (← el, ← er) (cut-whole b split i f.here), subst (IsFirst b split) (sym n) f)
]

-- `c` does not stand in the text.
abbrev pub Lacks : ℕ → Bytes → Type 0
Lacks c = All (λ x. x ≢ c)

starts_with-char : (x c : ℕ) (b : Bytes) → blob_starts_with (x ∷ b) (c ∷ []) ≡ (x == c)
unfolding blob_starts_with memcmp
starts_with-char x c b = ground arith

contains-append :
    (c : ℕ) (l r : Bytes) → Lacks c l → blob_contains (l ++ (c ∷ r)) (c ∷ []) ≡ some (length l)
unfolding blob_contains
contains-append c [] r h = ground (arith, starts_with-char c c r)
contains-append c (x ∷ l) r (hx, hl) =
    ground (arith, starts_with-char x c (l ++ (c ∷ r)), contains-append c l r hl)

-- `apk_blob_split` of a text without the separator character, that character and any rest gives
-- back the text and the rest.
pub blob_split_complete :
    (c : ℕ) (l r : Bytes) → Lacks c l → blob_split (l ++ (c ∷ r)) (c ∷ []) ≡ some (l, r)
unfolding blob_split
blob_split_complete c l r h =
    rw (contains-append c l r h) (ground (arith, take-append_self l (c ∷ r), drop_past l r c))
  where
    drop_past : (l r : Bytes) (c : ℕ) → drop (length l + 1) (l ++ (c ∷ r)) ≡ r
    drop_past l r c = rw (← drop-drop (length l) 1 (l ++ (c ∷ r)), drop-append_self l (c ∷ r))

pub blob_split-none : (c : ℕ) (b : Bytes) → Lacks c b → blob_split b (c ∷ []) ≡ none
unfolding blob_split blob_contains
blob_split-none c [] h = ground arith
blob_split-none c (x ∷ b) (hx, hb) = ground (arith, starts_with-char x c b, blob_split-none c b hb)
