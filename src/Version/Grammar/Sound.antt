-- ===== src/Version/Grammar/Sound.antt =====
-- What `apk_version_validate` accepts is a version of the grammar.
use alpine_linux_mac_os.Base.{
  ℕ, zero, suc, ◌+◌, ◌<◌, ◌≤◌, ◌==◌, Bool, true, false, not, ◌&&◌, some, Option-cases, Bool-cases,
  [], ◌∷◌, ◌++◌, All, Bytes, codes, length, ltb, leb, if◌then◌else◌, ◌≡◌, ◌⊎◌, ==_iff, refl, sym,
  ap, subst, ◌∙◌, inl, inr, arith,
}
use alpine_linux_mac_os.Blob.Order.{memcmp}
use alpine_linux_mac_os.Blob.Pull.{pull_blob_match}
use alpine_linux_mac_os.Ctype.{is_member, hexdigit, version_suffix, blob_spn}
use alpine_linux_mac_os.Ctype.Spans.{blob_spn-IsCut}
use alpine_linux_mac_os.Ctype.Members.{is_hexdigit, is_member-hexdigit}
use alpine_linux_mac_os.Version.{
  Part, part_value, initial_digit, digit, suffix, suffix_no, revision_no, invalid, TokenState,
  suffix_value, token_parse_digits, token_first, next_digits, next_suffix, next_hash, next_revision,
  token_next, validate_loop, version_validate, is_end,
}
use alpine_linux_mac_os.Version.Grammar.{
  is_digit, IsNumber, Tail, nothing, dotted, lettered, suffixed, numbered, hashed, revised,
  IsVersion, NoDigit,
}
use alpine_linux_mac_os.Version.Grammar.Numbers.{digits_read}
use alpine_linux_mac_os.Version.Grammar.Suffixes.{suffix_value-Named}

-- A token behind which no digit may come, unless it is read into the token.
abbrev Clean : TokenState → Bytes → Type 0
Clean t b = part_value t.token ≤ 1 → NoDigit b

-- What a step is for: what may stand behind its token may stand, with the token, behind the one before.
abbrev Reads : Part → Bytes → TokenState × Bytes → Type 0
Reads p b r =
    (r.0.token ≡ invalid)
    ⊎ ((part_value r.0.token < 7) × Clean r.0 r.1 × (Tail r.0.token r.1 → Tail p b))

Reads-if :
    (q : Bool) (p : Part) (b : Bytes) (x y : TokenState × Bytes)
    → (q ≡ true → Reads p b x)
    → (q ≡ false → Reads p b y)
    → Reads p b (if q then x else y)
Reads-if true p b x y h k = h refl
Reads-if false p b x y h k = k refl

-- A token of digits.
number-Reads :
    (p : Part) (t : TokenState) (whole b : Bytes)
    → part_value t.token < 7
    → ((d c : Bytes) → b ≡ d ++ c → IsNumber d → Tail t.token c → Tail p whole)
    → Reads p whole (token_parse_digits t b)
number-Reads p t whole b g h = elim (digits_read t b) [
  | inl e ↦ inl e
  | inr (same, stop, (d, number, cut)) ↦
      let rest = (token_parse_digits t b).1 in
      inr (
        subst (λ x. part_value x < 7) (sym same) g,
        λ small. stop,
        λ tail. h d rest cut number (subst (λ x. Tail x rest) same tail),
      )
]

-- The digits behind a point.
dot-Reads :
    (p : Part) (t : TokenState) (b : Bytes)
    → t.token ≡ p
    → part_value p ≤ 1
    → Reads p (b'.' ∷ b) (next_digits t b)
unfolding next_digits
dot-Reads p t b e k = at (t.token) refl
  where
    at : (q : Part) → t.token ≡ q → Reads p (b'.' ∷ b) (next_digits t b)
    at initial_digit f =
        rw (f, next_digits)
          (number-Reads p (record t { token = digit }) (b'.' ∷ b) b (omega arith)
            (λ d c cut n tail. subst (λ x. Tail p (b'.' ∷ x)) (sym cut) (dotted p d c k n tail)))
    at digit f =
        rw (f, next_digits)
          (number-Reads p (record t { token = digit }) (b'.' ∷ b) b (omega arith)
            (λ d c cut n tail. subst (λ x. Tail p (b'.' ∷ x)) (sym cut) (dotted p d c k n tail)))
    at suffix f =
        let big : part_value suffix ≤ 1 = subst (λ x. part_value x ≤ 1) (sym e ∙ f) k in
        absurd (omega arith)
    at _ f = rw (f, next_digits) (inl refl)

-- Digits behind a suffix; behind any other token they are refused, or cannot come.
digit-Reads :
    (t : TokenState) (c : ℕ) (b : Bytes)
    → is_digit c ≡ true
    → Clean t (c ∷ b)
    → Reads t.token (c ∷ b) (next_digits t (c ∷ b))
unfolding next_digits
digit-Reads t c b e clean = at (t.token) refl
  where
    none_comes : part_value t.token ≤ 1 → Reads t.token (c ∷ b) (next_digits t (c ∷ b))
    none_comes k = let no = clean k in absurd cc

    at : (q : Part) → t.token ≡ q → Reads t.token (c ∷ b) (next_digits t (c ∷ b))
    at initial_digit f = none_comes (subst (λ x. part_value x ≤ 1) (sym f) (omega arith))
    at digit f = none_comes (subst (λ x. part_value x ≤ 1) (sym f) (omega arith))
    at suffix f =
        rw (f, next_digits)
          (number-Reads suffix (record t { token = suffix_no }) (c ∷ b) (c ∷ b) (omega arith)
            (λ d r cut n tail. subst (Tail suffix) (sym cut) (numbered d r n tail)))
    at _ f = rw (f, next_digits) (inl refl)

suffix-Reads :
    (t : TokenState) (b : Bytes)
    → part_value t.token ≤ 4
    → Reads t.token (b'_' ∷ b) (next_suffix t b)
unfolding next_suffix
suffix-Reads t b k =
    let span = blob_spn b version_suffix in
    let cut = (blob_spn-IsCut b version_suffix).whole in
    elim (Bool-cases (suffix_value span.left == 0)) [
      | inl e ↦ inl (rw (next_suffix, e) refl)
      | inr e ↦
          let name = suffix_value-Named span.left (λ z. ground arith) in
          rw (next_suffix, e)
            (inr (
              omega arith,
              λ small. absurd (omega arith),
              λ tail.
                  subst (λ x. Tail t.token (b'_' ∷ x)) cut
                    (suffixed t.token span.left span.right k name tail),
            ))
    ]

hash_digits :
    (h : Bytes)
    → All (λ c. not (is_member hexdigit c) ≡ false) h
    → All (λ c. is_hexdigit c ≡ true) h
hash_digits [] w = tt
hash_digits (c ∷ h) w = (ground (arith, is_member-hexdigit c), hash_digits h w.1)

hash-Reads :
    (t : TokenState) (b : Bytes) → part_value t.token ≤ 4 → Reads t.token (b'~' ∷ b) (next_hash t b)
unfolding next_hash
hash-Reads t b k =
    let span = blob_spn b hexdigit in
    let cut = blob_spn-IsCut b hexdigit in
    elim (Bool-cases (length span.left == 0)) [
      | inl e ↦ inl (rw (next_hash, e) refl)
      | inr e ↦
          let some_digit : 1 ≤ length span.left = ground arith in
          rw (next_hash, e)
            (inr (
              omega arith,
              λ small. absurd (omega arith),
              λ tail.
                  subst (λ x. Tail t.token (b'~' ∷ x)) cut.whole
                    (hashed t.token span.left span.right k
                      (some_digit, hash_digits span.left cut.inside) tail),
            ))
    ]

-- "-r" is taken from what begins with it.
match_revision :
    (b rest : Bytes) → pull_blob_match b (codes "-r") ≡ some rest → b ≡ b'-' ∷ b'r' ∷ rest
unfolding pull_blob_match memcmp
match_revision [] rest e = ground arith
match_revision (x ∷ []) rest e = ground arith
match_revision (x ∷ y ∷ b) rest e = ground arith

revision-Reads :
    (t : TokenState) (b : Bytes) → part_value t.token ≤ 5 → Reads t.token b (next_revision t b)
unfolding next_revision
revision-Reads t b k = elim (Option-cases (pull_blob_match b (codes "-r"))) [
  | inl e ↦ rw (next_revision, e) (inl refl)
  | inr (rest, e) ↦
      rw (next_revision, e)
        (number-Reads t.token (record t { token = revision_no }) b rest (omega arith)
          (λ d c cut n tail.
            subst (Tail t.token) (sym (match_revision b rest e ∙ ap (λ x. b'-' ∷ b'r' ∷ x) cut))
              (revised t.token d c k n tail)))
]

-- One step of `token_next`.
step-Reads :
    (t : TokenState) (c : ℕ) (b : Bytes)
    → Clean t (c ∷ b)
    → Reads t.token (c ∷ b) (token_next t (c ∷ b))
unfolding token_next
step-Reads t c b clean =
    let p = t.token in
    let refused : Reads p (c ∷ b) (record t { token = invalid }, c ∷ b) = inl refl in
    let starts : (k : ℕ) → (c == k) ≡ true → c ≡ k =
      λ (k : ℕ) (e : (c == k) ≡ true). (==_iff c k).0 e in
    Reads-if (leb b'a' c && leb c b'z') p (c ∷ b) _ _
      (λ e.
        Reads-if (ltb 1 (part_value p)) p (c ∷ b) _ _ (λ k. refused)
          (λ k. inr (
            omega arith,
            λ small. absurd (omega arith),
            λ tail. lettered p c b (ground arith) e tail,
          )))
      (λ e.
        Reads-if (c == b'.') p (c ∷ b) _ _
          (λ f.
            Reads-if (ltb 1 (part_value p)) p (c ∷ b) _ _ (λ k. refused)
              (λ k.
                subst (λ x. Reads p (x ∷ b) (next_digits t b)) (sym (starts b'.' f))
                  (dot-Reads p t b refl (ground arith))))
          (λ f.
            Reads-if (leb b'0' c && leb c b'9') p (c ∷ b) _ _ (λ g. digit-Reads t c b g clean)
              (λ g.
                Reads-if (c == b'_') p (c ∷ b) _ _
                  (λ h.
                    Reads-if (ltb 4 (part_value p)) p (c ∷ b) _ _ (λ k. refused)
                      (λ k.
                        subst (λ x. Reads p (x ∷ b) (next_suffix t b)) (sym (starts b'_' h))
                          (suffix-Reads t b (ground arith))))
                  (λ h.
                    Reads-if (c == b'~') p (c ∷ b) _ _
                      (λ i.
                        Reads-if (leb 5 (part_value p)) p (c ∷ b) _ _ (λ k. refused)
                          (λ k.
                            subst (λ x. Reads p (x ∷ b) (next_hash t b)) (sym (starts b'~' i))
                              (hash-Reads t b (ground arith))))
                      (λ i.
                        Reads-if (c == b'-') p (c ∷ b) _ _
                          (λ j.
                            Reads-if (leb 6 (part_value p)) p (c ∷ b) _ _ (λ k. refused)
                              (λ k. revision-Reads t (c ∷ b) (ground arith)))
                          (λ j. refused))))))

-- The loop does not recover from a token that is invalid.
not_recovered :
    (fuel : ℕ) (t : TokenState) (b : Bytes)
    → t.token ≡ invalid
    → is_end (validate_loop fuel t b) ≡ false
unfolding validate_loop
not_recovered zero t b e = refl
not_recovered (suc f) t b e = rw e refl

loop_sound :
    (fuel : ℕ) (t : TokenState) (b : Bytes)
    → part_value t.token < 7
    → Clean t b
    → is_end (validate_loop fuel t b) ≡ true
    → Tail t.token b
unfolding validate_loop
loop_sound zero t b g clean e = absurd cc
loop_sound (suc f) t [] g clean e = nothing t.token
loop_sound (suc f) t (c ∷ b) g clean e =
    let (t', b') = token_next t (c ∷ b) in
    let goes : ltb (part_value t.token) 7 ≡ true = ground arith in
    let rest : is_end (validate_loop f t' b') ≡ true = rw (validate_loop, goes) at e in
    elim (step-Reads t c b clean) [
      | inl bad ↦ let no = not_recovered f t' b' bad in absurd cc
      | inr (g', clean', back) ↦ back (loop_sound f t' b' g' clean' rest)
    ]

pub validate_sound : (v : Bytes) → version_validate v ≡ true → IsVersion v
unfolding version_validate token_first
validate_sound v e =
    let t0 : TokenState = record { token = initial_digit; suffix = 0; number = 0; value = [] } in
    elim (digits_read t0 v) [
      | inl bad ↦
          let no = not_recovered (length v + 2) (token_first v).0 (token_first v).1 bad in absurd cc
      | inr (same, stop, (d, number, cut)) ↦
          let rest = (token_parse_digits t0 v).1 in
          let goes : part_value (token_first v).0.token < 7 =
            subst (λ x. part_value x < 7) (sym same) (omega arith) in
          let tail = loop_sound (length v + 2) (token_first v).0 rest goes (λ small. stop) e in
          (d, rest, cut, number, subst (λ x. Tail x rest) same tail)
    ]
