-- ===== src/Version/Match.antt =====
-- `apk_version_match` over the operators, and `apk_version_validate`.
use alpine_linux_mac_os.Base.{
  ℕ, ◌-◌, ◌<◌, bit_and, bit_or, Bool, true, false, not, ◌&&◌, ◌||◌, some, Bytes, ◌==◌,
  if◌then◌else◌, ◌≡◌, refl, arith, ◌⊎◌, all_below, all_below_sound,
}
use alpine_linux_mac_os.Blob.{Blob}
use alpine_linux_mac_os.Version.Operators.{version_conflict}
use alpine_linux_mac_os.Version.Compare.{version_compare_fuzzy, version_compare, version_match}
use alpine_linux_mac_os.Version.Order.{version_compare_trichotomy, compare_fuzzy-lt}

-- What `apk_version_match` makes of the result of the comparison.
match_bits : ℕ → ℕ → Bool
match_bits r op =
    let ok = bit_and op 7 == 7 || not (bit_and r op == 0) in
    if bit_and op version_conflict == 0 then ok else not ok

is_fuzzy : ℕ → Bool
is_fuzzy op = not (bit_and op 8 == 0)

match-bits :
    (a : Blob) (op : ℕ) (b : Blob)
    → version_match a op b ≡ match_bits (version_compare_fuzzy a b (is_fuzzy op)) op
unfolding version_match match_bits is_fuzzy
match-bits a op b = refl

-- The three facts below are checked for every result and every operator.
abbrev agree : Bool → Bool → Bool
agree p q = if p then q else not q

agree_sound : (p q : Bool) → agree p q ≡ true → p ≡ q
agree_sound p q h = ground arith

conflict_table :
    all_below 16 (λ op.
      agree (is_fuzzy (bit_or op 16)) (is_fuzzy op)
      && all_below 8 (λ r. agree (match_bits r (bit_or op 16)) (not (match_bits r op))))
    ≡ true
unfolding all_below match_bits is_fuzzy
conflict_table = refl

conflict_bits :
    (op r : ℕ)
    → op < 16
    → r < 8
    → (is_fuzzy (bit_or op 16) ≡ is_fuzzy op)
      × (match_bits r (bit_or op 16) ≡ not (match_bits r op))
conflict_bits op r ho hr =
    let t =
      all_below_sound 16
        (λ o.
          agree (is_fuzzy (bit_or o 16)) (is_fuzzy o)
          && all_below 8 (λ x. agree (match_bits x (bit_or o 16)) (not (match_bits x o))))
        op conflict_table ho in
    let u : all_below 8 (λ x. agree (match_bits x (bit_or op 16)) (not (match_bits x op))) ≡ true =
      ground arith in
    (
      agree_sound _ _ (ground arith),
      agree_sound _ _ (
          all_below_sound 8 (λ x. agree (match_bits x (bit_or op 16)) (not (match_bits x op))) r u
            hr),
    )

-- The conflict bit negates a match, whatever the other four bits of the operator are.
pub version_match-conflict :
    (a b : Blob) (op : ℕ)
    → op < 16
    → version_match a (bit_or op version_conflict) b ≡ not (version_match a op b)
version_match-conflict a b op h =
    let c =
      conflict_bits op (version_compare_fuzzy a b (is_fuzzy op)) h
        (compare_fuzzy-lt a b (is_fuzzy op)) in
    rw (match-bits a (bit_or op version_conflict) b, match-bits a op b, c.0) c.1

complement_table :
    all_below 7 (λ op.
      op == 0
      || all_below 8 (λ r.
        not (r == 1 || r == 2 || r == 4)
        || not (is_fuzzy op)
          && not (is_fuzzy (7 - op))
          && agree (match_bits r (7 - op)) (not (match_bits r op))))
    ≡ true
unfolding all_below match_bits is_fuzzy
complement_table = refl

complement_bits :
    (op r : ℕ)
    → 0 < op
    → op < 7
    → (r ≡ 1) ⊎ (r ≡ 2) ⊎ (r ≡ 4)
    → (is_fuzzy op ≡ false)
      × (is_fuzzy (7 - op) ≡ false)
      × (match_bits r (7 - op) ≡ not (match_bits r op))
complement_bits op r h0 h hr =
    let p : ℕ → Bool = λ x.
      not (x == 1 || x == 2 || x == 4)
      || not (is_fuzzy op)
        && not (is_fuzzy (7 - op))
        && agree (match_bits x (7 - op)) (not (match_bits x op)) in
    let t =
      all_below_sound 7
        (λ o.
          o == 0
          || all_below 8 (λ x.
            not (x == 1 || x == 2 || x == 4)
            || not (is_fuzzy o)
              && not (is_fuzzy (7 - o))
              && agree (match_bits x (7 - o)) (not (match_bits x o))))
        op complement_table h in
    let u : all_below 8 p ≡ true = ground arith in
    let v = all_below_sound 8 p r u (ground arith) in
    (ground arith, ground arith, agree_sound _ _ (ground arith))

-- For two versions, an operator of the bits <, = and > that is neither empty nor full matches
-- exactly if the operator of the other bits does not.
pub version_match_complement :
    (a b : Bytes) (op : ℕ)
    → 0 < op
    → op < 7
    → version_match (some a) (7 - op) (some b) ≡ not (version_match (some a) op (some b))
version_match_complement a b op h0 h =
    let c =
      complement_bits op (version_compare (some a) (some b)) h0 h
        (unfold version_compare in ground (arith, version_compare_trichotomy a b)) in
    rw (match-bits (some a) (7 - op) (some b), match-bits (some a) op (some b), c.0, c.1)
      (unfold version_compare in c.2)
