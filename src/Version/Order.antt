-- ===== src/Version/Order.antt =====
-- `apk_version_compare` is the lexicographic comparison of the versions' keys; so it is a total
-- order up to versions with the same keys, and its loop always ends.
use alpine_linux_mac_os.Base.{
  ℕ, zero, suc, ◌+◌, ◌<◌, ◌≤◌, compare, Ordering, Bool, false, ◌&&◌, Option, some, none, [], ◌∷◌,
  List, Bytes, length, ltb, ◌==◌, if◌then◌else◌, ◌≡◌, ◌≢◌, refl, arith, lex, ap, inl, inr,
  Bool-cases, IsTotalOrder, compare-IsTotalOrder, lex-IsTotalOrder, ◌↔◌, ◌⊎◌,
}
use mathlib.Core.Option
use alpine_linux_mac_os.Blob.{Blob}
use alpine_linux_mac_os.Version.{part_value, end, TokenState, token_first, token_next}
use alpine_linux_mac_os.Version.Operators.{
  version_equal, version_less, version_greater, version_unknown,
}
use alpine_linux_mac_os.Version.Compare.{
  result_of, token_cmp, compare_ends, compare_loop, version_compare_fuzzy, version_compare,
}
use alpine_linux_mac_os.Version.Advance.{Goes, WellRead, token_next-Advances, token_first-Advances}
use alpine_linux_mac_os.Version.Keys.{
  token_key, compare_keys, token_cmp-keys, compare_ends-keys, part_value-injective, stop_keys,
}

-- The keys of the tokens from a state on, up to the token at which no other follows.
unfoldable pub keys_from : ℕ → TokenState × Bytes → List (List ℕ)
unfolding token_key token_next
keys_from zero (t, b) = []
keys_from (suc fuel) (t, b) =
    let more = keys_from fuel (token_next t b) in
    token_key t ∷ (if ltb (part_value t.token) (part_value end) then more else [])

-- The keys of a version.
unfoldable pub version_keys : Bytes → List (List ℕ)
unfolding keys_from token_first
version_keys b = keys_from (length b + 2) (token_first b)

abbrev pub compare_lists : List (List ℕ) → List (List ℕ) → Ordering
compare_lists = lex (lex compare)

-- The rounds that a state needs.
abbrev pub rounds : TokenState × Bytes → ℕ
rounds (t, b) = if ltb (part_value t.token) (part_value end) then length b + 2 else 1

pub rounds-next :
    (t : TokenState) (b : Bytes) → Goes t → suc (rounds (token_next t b)) ≤ rounds (t, b)
rounds-next t b g = ground (arith, (token_next-Advances t b).shorter)

-- One round, with what the rounds behind it give.
round-keys :
    (ta tb : TokenState) (more : Option ℕ) (restA restB : List (List ℕ))
    → WellRead ta
    → WellRead tb
    → (Goes ta → ta.token ≡ tb.token → more ≡ some (result_of (compare_lists restA restB)))
    → (if part_value ta.token == part_value tb.token && ltb (part_value ta.token) (part_value end)
        then (if token_cmp ta tb == version_equal then more else some (token_cmp ta tb))
        else some (compare_ends false ta tb))
      ≡ some (
          result_of (
            compare_lists
              (token_key ta ∷ (if ltb (part_value ta.token) (part_value end) then restA else []))
              (token_key tb ∷ (if ltb (part_value tb.token) (part_value end) then restB else []))))
round-keys ta tb more restA restB ha hb next =
    elim (Bool-cases (part_value ta.token == part_value tb.token)) [
      | inl e ↦
          let e' : part_value ta.token ≡ part_value tb.token = ground arith in
          let same : ta.token ≡ tb.token = part_value-injective (ta.token) (tb.token) e' in
          elim (Bool-cases (ltb (part_value ta.token) (part_value end))) [
            | inl g ↦
                let g' : part_value ta.token < 7 = ground arith in
                let c : token_cmp ta tb ≡ result_of (compare_keys ta tb) =
                  token_cmp-keys ta tb ha hb same g' in
                let n = next g' same in rw (← e', g, e', c) (ground arith)
            | inr g ↦ ground (arith, stop_keys ta tb same)
          ]
      | inr n ↦ let d = compare_ends-keys ta tb (λ e. ground arith) in ground arith
    ]

loop-keys :
    (fuel fa fb : ℕ) (sa sb : TokenState × Bytes)
    → WellRead sa.0
    → WellRead sb.0
    → rounds sa ≤ fuel
    → rounds sa ≤ fa
    → rounds sb ≤ fb
    → compare_loop fuel false sa sb
      ≡ some (result_of (compare_lists (keys_from fa sa) (keys_from fb sb)))
unfolding compare_loop keys_from
loop-keys zero fa fb (ta, a) (tb, b) ha hb kf ka kb = ground arith
loop-keys (suc f) zero fb (ta, a) (tb, b) ha hb kf ka kb = ground arith
loop-keys (suc f) (suc fa) zero (ta, a) (tb, b) ha hb kf ka kb = ground arith
loop-keys (suc f) (suc fa) (suc fb) (ta, a) (tb, b) ha hb kf ka kb =
    round-keys ta tb (compare_loop f false (token_next ta a) (token_next tb b))
      (keys_from fa (token_next ta a)) (keys_from fb (token_next tb b)) ha hb
      λ g same.
        let ra = rounds-next ta a g in
        let gb : Goes tb = rw same at g in
        let rb = rounds-next tb b gb in
        loop-keys f fa fb (token_next ta a) (token_next tb b) ((token_next-Advances ta a).begins)
          ((token_next-Advances tb b).begins) (omega arith) (omega arith) (omega arith)

pub rounds-first : (a : Bytes) → rounds (token_first a) ≤ length a + 2
rounds-first a = ground (arith, (token_first-Advances a).shorter)

-- `apk_version_compare` of two versions is the lexicographic comparison of the lists of their
-- tokens' keys.
pub version_compare-keys :
    (a b : Bytes)
    → version_compare (some a) (some b)
      ≡ result_of (compare_lists (version_keys a) (version_keys b))
unfolding version_compare version_keys
version_compare-keys a b =
    ap (λ (o : Option ℕ). Option.get_or o version_unknown)
      (loop-keys (length a + 2) (length a + 2) (length b + 2) (token_first a) (token_first b)
        ((token_first-Advances a).begins) ((token_first-Advances b).begins) (rounds-first a)
        (rounds-first a) (rounds-first b))

keys_order : IsTotalOrder compare_lists
keys_order = lex-IsTotalOrder (lex compare) (lex-IsTotalOrder compare compare-IsTotalOrder)

-- Two versions compare equal exactly if their tokens have the same keys.
pub version_compare-equal :
    (a b : Bytes)
    → (version_compare (some a) (some b) ≡ version_equal) ↔ (version_keys a ≡ version_keys b)
version_compare-equal a b = (
  λ h. keys_order.same (version_keys a) (version_keys b) (ground (arith, version_compare-keys a b)),
  λ e. rw (version_compare-keys a b, e, keys_order.self (version_keys b)) refl,
)

-- The result with the two versions exchanged.
abbrev pub mirrored : ℕ → ℕ
mirrored r =
    if r == version_less then version_greater else if r == version_greater then version_less else r

-- Exchanging the versions exchanges APK_VERSION_LESS and APK_VERSION_GREATER.
pub version_compare_swap :
    (a b : Bytes) → version_compare (some b) (some a) ≡ mirrored (version_compare (some a) (some b))
version_compare_swap a b =
    rw
      (
        version_compare-keys a b,
        version_compare-keys b a,
        keys_order.swap (version_keys a) (version_keys b),
      )
      (ground arith)

-- A version less than a second, which is less than a third, is less than the third.
pub version_compare_trans :
    (a b c : Bytes)
    → version_compare (some a) (some b) ≡ version_less
    → version_compare (some b) (some c) ≡ version_less
    → version_compare (some a) (some c) ≡ version_less
version_compare_trans a b c h k =
    let t = keys_order.trans (version_keys a) (version_keys b) (version_keys c) in
    ground (arith, version_compare-keys a b, version_compare-keys b c, version_compare-keys a c, t)

-- The comparison gives one of the three results for every two versions.
pub version_compare_trichotomy :
    (a b : Bytes)
    → (version_compare (some a) (some b) ≡ version_less)
      ⊎ (version_compare (some a) (some b) ≡ version_equal)
      ⊎ (version_compare (some a) (some b) ≡ version_greater)
version_compare_trichotomy a b = ground (arith, version_compare-keys a b)

cmp_pos : (ta tb : TokenState) → token_cmp ta tb ≢ version_unknown
unfolding token_cmp
cmp_pos ta tb = ground arith

ends_pos : (fuzzy : Bool) (ta tb : TokenState) → compare_ends fuzzy ta tb ≢ version_unknown
unfolding compare_ends
ends_pos fuzzy ta tb = ground arith

loop_pos :
    (fuel : ℕ) (fuzzy : Bool) (sa sb : TokenState × Bytes)
    → rounds sa ≤ fuel
    → Option.get_or (compare_loop fuel fuzzy sa sb) version_unknown ≢ version_unknown
unfolding compare_loop
loop_pos zero fuzzy (ta, a) sb k = ground arith
loop_pos (suc f) fuzzy (ta, a) (tb, b) k = ground (
  arith,
  cmp_pos ta tb,
  ends_pos fuzzy ta tb,
  rounds-next ta a,
  loop_pos f fuzzy (token_next ta a) (token_next tb b),
)

-- The loop of `apk_version_compare_fuzzy` ends for every two blobs, exact or fuzzy: the rounds
-- allowed are enough, and the result is never APK_VERSION_UNKNOWN.
pub version_compare_fuzzy-ne-unknown :
    (a b : Blob) (fuzzy : Bool) → version_compare_fuzzy a b fuzzy ≢ version_unknown
unfolding version_compare_fuzzy
version_compare_fuzzy-ne-unknown none none fuzzy = ground arith
version_compare_fuzzy-ne-unknown none (some b) fuzzy = ground arith
version_compare_fuzzy-ne-unknown (some a) none fuzzy = ground arith
version_compare_fuzzy-ne-unknown (some a) (some b) fuzzy =
    loop_pos (length a + 2) fuzzy (token_first a) (token_first b) (rounds-first a)

loop-lt :
    (fuel : ℕ) (fuzzy : Bool) (sa sb : TokenState × Bytes)
    → Option.get_or (compare_loop fuel fuzzy sa sb) version_unknown < 8
unfolding compare_loop
loop-lt zero fuzzy sa sb = ground arith
loop-lt (suc f) fuzzy (ta, a) (tb, b) =
    ground (
      arith,
      cmp-lt ta tb,
      ends-lt fuzzy ta tb,
      loop-lt f fuzzy (token_next ta a) (token_next tb b),
    )
  where
    cmp-lt : (ta tb : TokenState) → token_cmp ta tb < 8
    cmp-lt ta tb = unfold token_cmp in ground arith

    ends-lt : (fuzzy : Bool) (ta tb : TokenState) → compare_ends fuzzy ta tb < 8
    ends-lt fuzzy ta tb = unfold compare_ends in ground arith

-- The result has no other bits than those of <, = and >.
pub compare_fuzzy-lt : (a b : Blob) (fuzzy : Bool) → version_compare_fuzzy a b fuzzy < 8
unfolding version_compare_fuzzy
compare_fuzzy-lt none none fuzzy = ground arith
compare_fuzzy-lt none (some b) fuzzy = omega arith
compare_fuzzy-lt (some a) none fuzzy = omega arith
compare_fuzzy-lt (some a) (some b) fuzzy =
    loop-lt (length a + 2) fuzzy (token_first a) (token_first b)
