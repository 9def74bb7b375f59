-- ===== src/Version/Grammar/Complete.antt =====
-- `apk_version_validate` accepts the versions of the grammar.
use alpine_linux_mac_os.Base.{
  ℕ, zero, suc, ◌+◌, ◌<◌, ◌≤◌, ◌==◌, true, false, not, ◌&&◌, [], ◌∷◌, ◌++◌, All, Bytes, length,
  length-append, ltb, leb, ◌≡◌, ◌≢◌, refl, sym, ap, subst, ◌∙◌, arith,
}
use alpine_linux_mac_os.Blob.Order.{memcmp}
use alpine_linux_mac_os.Blob.Pull.{pull_blob_match}
use alpine_linux_mac_os.Ctype.{is_member, hexdigit, version_suffix, blob_spn}
use alpine_linux_mac_os.Ctype.Spans.{StartsWith, scan-append}
use alpine_linux_mac_os.Version.{
  Part, part_value, initial_digit, digit, letter, suffix, suffix_no, commit_hash, revision_no,
  TokenState, token_parse_digits, token_first, next_digits, next_suffix, next_hash, next_revision,
  token_next, validate_loop, version_validate, is_end,
}
use alpine_linux_mac_os.Ctype.Members.{is_hexdigit, is_member-hexdigit, is_member-version_suffix}
use alpine_linux_mac_os.Version.Grammar.{
  is_digit, IsNumber, IsHash, IsSuffix, Tail, nothing, dotted, lettered, suffixed, numbered, hashed,
  revised, IsVersion, NoDigit,
}
use alpine_linux_mac_os.Version.Grammar.Numbers.{parse-number}
use alpine_linux_mac_os.Version.Grammar.Suffixes.{suffix_named, suffix_inside}

-- No digit begins what stands behind a token other than a suffix.
digit_free : (p : Part) (b : Bytes) → p ≢ suffix → Tail p b → NoDigit b
digit_free p _ n (nothing q) = tt
digit_free p _ n (dotted q d r k h w) = refl
digit_free p _ n (lettered q c r k h w) = ground arith
digit_free p _ n (suffixed q s r k h w) = refl
digit_free p _ n (numbered d r h w) = absurd (n refl)
digit_free p _ n (hashed q h r k x w) = refl
digit_free p _ n (revised q d r k h w) = refl

-- The names of suffixes are not continued by what stands behind them.
suffix_stops :
    (p : Part) (b : Bytes)
    → 2 ≤ part_value p
    → Tail p b
    → StartsWith (λ c. not (is_member version_suffix c)) b
suffix_stops p _ e (nothing q) = tt
suffix_stops p _ e (dotted q d r k h w) = absurd (omega arith)
suffix_stops p _ e (lettered q c r k h w) = absurd (omega arith)
suffix_stops p _ e (suffixed q s r k h w) = rw (is_member-version_suffix b'_' (omega arith)) refl
suffix_stops p _ e (numbered [] r h w) = absurd (omega arith)
suffix_stops p _ e (numbered (c ∷ d) r (long, (digit_c, h)) w) =
    ground (arith, is_member-version_suffix c (ground arith))
suffix_stops p _ e (hashed q h r k x w) = rw (is_member-version_suffix b'~' (omega arith)) refl
suffix_stops p _ e (revised q d r k h w) = rw (is_member-version_suffix b'-' (omega arith)) refl

hash_stops :
    (p : Part) (b : Bytes)
    → 5 ≤ part_value p
    → Tail p b
    → StartsWith (λ c. not (is_member hexdigit c)) b
unfolding is_member
hash_stops p _ e (nothing q) = tt
hash_stops p _ e (dotted q d r k h w) = absurd (omega arith)
hash_stops p _ e (lettered q c r k h w) = absurd (omega arith)
hash_stops p _ e (suffixed q s r k h w) = absurd (omega arith)
hash_stops p _ e (numbered d r h w) = absurd (omega arith)
hash_stops p _ e (hashed q h r k x w) = absurd (omega arith)
hash_stops p _ e (revised q d r k h w) = refl

-- What `token_next` does where the token may be followed by the one that comes.
next_dot :
    (t : TokenState) (b : Bytes)
    → part_value t.token ≤ 1
    → token_next t (b'.' ∷ b) ≡ token_parse_digits (record t { token = digit }) b
unfolding token_next next_digits
next_dot t b k = at (t.token) refl
  where
    at :
        (p : Part)
        → t.token ≡ p
        → token_next t (b'.' ∷ b) ≡ token_parse_digits (record t { token = digit }) b
    at initial_digit e = rw (token_next, next_digits, e) refl
    at digit e = rw (token_next, next_digits, e) refl
    at p e = let big : part_value p ≤ 1 = subst (λ x. part_value x ≤ 1) e k in absurd (omega arith)

next_letter :
    (t : TokenState) (c : ℕ) (b : Bytes)
    → part_value t.token ≤ 1
    → (leb b'a' c && leb c b'z') ≡ true
    → token_next t (c ∷ b) ≡ (record t { value = c ∷ []; token = letter }, b)
unfolding token_next
next_letter t c b k e =
    let early : ltb 1 (part_value t.token) ≡ false = ground arith in rw (token_next, e, early) refl

next_underscore :
    (t : TokenState) (b : Bytes)
    → part_value t.token ≤ 4
    → token_next t (b'_' ∷ b) ≡ next_suffix t b
unfolding token_next
next_underscore t b k =
    let early : ltb 4 (part_value t.token) ≡ false = ground arith in rw (token_next, early) refl

next_tilde :
    (t : TokenState) (b : Bytes) → part_value t.token ≤ 4 → token_next t (b'~' ∷ b) ≡ next_hash t b
unfolding token_next
next_tilde t b k =
    let early : leb 5 (part_value t.token) ≡ false = ground arith in rw (token_next, early) refl

next_dash :
    (t : TokenState) (b : Bytes)
    → part_value t.token ≤ 5
    → token_next t (b'-' ∷ b'r' ∷ b) ≡ token_parse_digits (record t { token = revision_no }) b
unfolding token_next next_revision pull_blob_match memcmp
next_dash t b k =
    let early : leb 6 (part_value t.token) ≡ false = ground arith in
    rw (token_next, early) (ground arith)

next_digit :
    (t : TokenState) (c : ℕ) (b : Bytes)
    → is_digit c ≡ true
    → token_next t (c ∷ b) ≡ next_digits t (c ∷ b)
unfolding token_next
next_digit t c b h =
    let no_letter : (leb b'a' c && leb c b'z') ≡ false = ground arith in
    let no_dot : (c == b'.') ≡ false = ground arith in unfold token_next in ground arith

next_number :
    (t : TokenState) (c : ℕ) (b : Bytes)
    → t.token ≡ suffix
    → is_digit c ≡ true
    → token_next t (c ∷ b) ≡ token_parse_digits (record t { token = suffix_no }) (c ∷ b)
next_number t c b e h = next_digit t c b h ∙ behind
  where
    behind : next_digits t (c ∷ b) ≡ token_parse_digits (record t { token = suffix_no }) (c ∷ b)
    behind = unfold next_digits in rw e refl

read_suffix :
    (t : TokenState) (s b : Bytes)
    → IsSuffix s
    → Tail suffix b
    → ((next_suffix t (s ++ b)).0.token ≡ suffix) × ((next_suffix t (s ++ b)).1 ≡ b)
unfolding next_suffix blob_spn
read_suffix t s b h w =
    let cut =
      scan-append (λ c. not (is_member version_suffix c)) s b (suffix_inside s h)
        (suffix_stops suffix b (omega arith) w) in
    rw (next_suffix, cut, suffix_named s h) (refl, refl)

hash_inside :
    (h : Bytes)
    → All (λ c. is_hexdigit c ≡ true) h
    → All (λ c. not (is_member hexdigit c) ≡ false) h
hash_inside [] w = tt
hash_inside (c ∷ h) w = (ground (arith, is_member-hexdigit c), hash_inside h w.1)

read_hash :
    (t : TokenState) (h b : Bytes)
    → IsHash h
    → Tail commit_hash b
    → ((next_hash t (h ++ b)).0.token ≡ commit_hash) × ((next_hash t (h ++ b)).1 ≡ b)
unfolding next_hash blob_spn
read_hash t h b (long, inside) w =
    let cut =
      scan-append (λ c. not (is_member hexdigit c)) h b (hash_inside h inside)
        (hash_stops commit_hash b (omega arith) w) in
    let some_digit : (length h == 0) ≡ false = ground arith in
    rw (next_hash, cut, some_digit) (refl, refl)

-- A round of the loop, by what the token is that it reads.
round :
    (f : ℕ) (t : TokenState) (whole : Bytes) (q : Part) (rest : Bytes)
    → part_value t.token < 7
    → (token_next t whole).0.token ≡ q
    → (token_next t whole).1 ≡ rest
    → ((u : TokenState) → u.token ≡ q → is_end (validate_loop f u rest) ≡ true)
    → is_end (validate_loop (suc f) t whole) ≡ true
unfolding validate_loop
round f t whole q rest g e r next =
    let goes : ltb (part_value t.token) 7 ≡ true = ground arith in
    rw (validate_loop, goes, r) (next (token_next t whole).0 e)

-- A round that reads a number.
round-number :
    (f : ℕ) (t u : TokenState) (whole d b : Bytes)
    → part_value t.token < 7
    → u.token ≢ suffix
    → token_next t whole ≡ token_parse_digits u (d ++ b)
    → IsNumber d
    → Tail u.token b
    → ((v : TokenState) → v.token ≡ u.token → is_end (validate_loop f v b) ≡ true)
    → is_end (validate_loop (suc f) t whole) ≡ true
round-number f t u whole d b g n e h w next =
    let (token, rest) = parse-number u d b h (digit_free u.token b n w) in
    round f t whole u.token b g (ap (λ r. r.0.token) e ∙ token) (ap (λ r. r.1) e ∙ rest) next

loop_complete :
    (f : ℕ) (p : Part) (b : Bytes) (t : TokenState)
    → Tail p b
    → t.token ≡ p
    → part_value p < 7
    → length b + 2 ≤ f
    → is_end (validate_loop f t b) ≡ true
loop_complete zero p b t w e g k = absurd (omega arith)
loop_complete (suc zero) p b t w e g k = absurd (omega arith)
loop_complete (suc (suc f)) p _ t (nothing q) e g k =
    unfold validate_loop token_next in rw e (ground arith)
loop_complete (suc (suc f)) p _ t (dotted q d b j h w) e g k =
    let size = length-append d b in
    let early : part_value t.token ≤ 1 = subst (λ x. part_value x ≤ 1) (sym e) j in
    round-number (suc f) t (record t { token = digit }) (b'.' ∷ d ++ b) d b (omega arith) (cc)
      (next_dot t (d ++ b) early) h w
      (λ v e'. loop_complete (suc f) digit b v w e' (omega arith) (omega arith))
loop_complete (suc (suc f)) p _ t (lettered q c b j h w) e g k =
    let early : part_value t.token ≤ 1 = subst (λ x. part_value x ≤ 1) (sym e) j in
    let read = next_letter t c b early h in
    round (suc f) t (c ∷ b) letter b (omega arith) (ap (λ r. r.0.token) read) (ap (λ r. r.1) read)
      (λ v e'. loop_complete (suc f) letter b v w e' (omega arith) (omega arith))
loop_complete (suc (suc f)) p _ t (suffixed q s b j h w) e g k =
    let size = length-append s b in
    let early : part_value t.token ≤ 4 = subst (λ x. part_value x ≤ 4) (sym e) j in
    let (token, rest) = read_suffix t s b h w in
    let read = next_underscore t (s ++ b) early in
    round (suc f) t (b'_' ∷ s ++ b) suffix b (subst (λ x. part_value x < 7) (sym e) g)
      (ap (λ r. r.0.token) read ∙ token) (ap (λ r. r.1) read ∙ rest)
      (λ v e'. loop_complete (suc f) suffix b v w e' (omega arith) (omega arith))
loop_complete (suc (suc f)) p _ t (numbered [] b h w) e g k = absurd (omega arith)
loop_complete (suc (suc f)) p _ t (numbered (c ∷ d) b h w) e g k =
    let size = length-append d b in
    round-number (suc f) t (record t { token = suffix_no }) (c ∷ d ++ b) (c ∷ d) b
      (subst (λ x. part_value x < 7) (sym e) g) (cc) (next_number t c (d ++ b) e (h.1.0)) h w
      (λ v e'. loop_complete (suc f) suffix_no b v w e' (omega arith) (omega arith))
loop_complete (suc (suc f)) p _ t (hashed q x b j h w) e g k =
    let size = length-append x b in
    let early : part_value t.token ≤ 4 = subst (λ y. part_value y ≤ 4) (sym e) j in
    let (token, rest) = read_hash t x b h w in
    let read = next_tilde t (x ++ b) early in
    round (suc f) t (b'~' ∷ x ++ b) commit_hash b (subst (λ y. part_value y < 7) (sym e) g)
      (ap (λ r. r.0.token) read ∙ token) (ap (λ r. r.1) read ∙ rest)
      (λ v e'. loop_complete (suc f) commit_hash b v w e' (omega arith) (omega arith))
loop_complete (suc (suc f)) p _ t (revised q d b j h w) e g k =
    let size = length-append d b in
    let early : part_value t.token ≤ 5 = subst (λ x. part_value x ≤ 5) (sym e) j in
    round-number (suc f) t (record t { token = revision_no }) (b'-' ∷ b'r' ∷ d ++ b) d b
      (omega arith) (cc) (next_dash t (d ++ b) early) h w
      (λ v e'. loop_complete (suc f) revision_no b v w e' (omega arith) (omega arith))

pub validate_complete : (v : Bytes) → IsVersion v → version_validate v ≡ true
unfolding version_validate token_first
validate_complete v (d, b, cut, h, w) =
    let t0 : TokenState = record { token = initial_digit; suffix = 0; number = 0; value = [] } in
    let (token, rest) = parse-number t0 d b h (digit_free initial_digit b (cc) w) in
    let n = length (d ++ b) + 2 in
    let size = length-append d b in
    let first = (token_parse_digits t0 (d ++ b)).0 in
    let loop = loop_complete n initial_digit b first w token (omega arith) (omega arith) in
    subst (λ x. version_validate x ≡ true) (sym cut)
      (subst (λ x. is_end (validate_loop n first x) ≡ true) (sym rest) loop)
