-- ===== src/Dependency/Replaces.antt =====
-- `apk_pkg_replaces_dir` of apk-tools/src/package.c: which of two packages owns a directory.
use alpine_linux_mac_os.Base.{
  ℕ, Bool, true, false, not, ◌&&◌, ◌||◌, Option, some, none, [], ◌∷◌, Bytes, compare, Ordering, ltb,
  if◌then◌else◌, ◌≡◌, refl, sym, ap, ◌∙◌, arith, Bool-cases, inl, inr, lex, IsTotalOrder,
  compare-IsTotalOrder, lex-IsTotalOrder,
}

-- APK_PKG_REPLACES_YES and APK_PKG_REPLACES_NO.
pub data Replaces : Type 0 where
  yes_replaces no_replaces : Replaces

-- What is read of an installed package. A name and an origin stand for their texts.
pub record Owner : Type 0 where
  pub name : Bytes
  pub origin : Bytes
  pub to_be_removed : Bool
  pub replaces_priority : ℕ

abbrev pub equal_text : Bytes → Bytes → Bool
equal_text a b = elim (lex compare a b) [ Ordering.eq ↦ true | _ ↦ false ]

abbrev pub is_empty : Bytes → Bool
is_empty [] = true
is_empty (c ∷ b) = false

abbrev pub yes_if : Bool → Replaces
yes_if true = yes_replaces
yes_if false = no_replaces

-- The last comparison, by `strcmp`.
abbrev pub greater_name : Bytes → Bytes → Bool
greater_name a b = elim (lex compare a b) [ Ordering.gt ↦ true | _ ↦ false ]

-- From the comparison of the priorities on.
unfoldable pub replaces_by_rank : Owner → Owner → Replaces
replaces_by_rank a b =
    let origins = not (is_empty a.origin) && equal_text a.origin b.origin in
    if ltb b.replaces_priority a.replaces_priority
    then no_replaces
    else if ltb a.replaces_priority b.replaces_priority
    then yes_replaces
    else if origins && equal_text a.origin a.name
    then no_replaces
    else if origins && equal_text b.origin b.name
    then yes_replaces
    else yes_if (greater_name a.name b.name)

-- `apk_pkg_replaces_dir`; `none` is NULL, for the overlay.
unfoldable pub replaces_dir : Option Owner → Option Owner → Replaces
unfolding replaces_by_rank
replaces_dir none b = no_replaces
replaces_dir (some a) none = yes_replaces
replaces_dir (some a) (some b) =
    if equal_text a.name b.name || a.to_be_removed
    then yes_replaces
    else if b.to_be_removed
    then no_replaces
    else replaces_by_rank a b

abbrev pub opposite : Replaces → Replaces
opposite yes_replaces = no_replaces
opposite no_replaces = yes_replaces

order : IsTotalOrder (lex compare)
order = lex-IsTotalOrder compare compare-IsTotalOrder

equal_text_swap : (a b : Bytes) → equal_text b a ≡ equal_text a b
equal_text_swap a b = ground (arith, order.swap a b)

equal_text_same : (a b : Bytes) → equal_text a b ≡ true → a ≡ b
equal_text_same a b h = order.same a b (ground arith)

greater_name_swap :
    (a b : Bytes) → equal_text a b ≡ false → greater_name b a ≡ not (greater_name a b)
greater_name_swap a b h = ground (arith, order.swap a b)

-- The ranks with the tests on origins as given: `o` that the origins are one, `x` and `y` that the
-- origin is the name of the package.
abbrev ranked : ℕ → ℕ → Bool → Bool → Bool → Bool → Replaces
ranked m n o x y g =
    if ltb n m
    then no_replaces
    else if ltb m n
    then yes_replaces
    else if o && x
    then no_replaces
    else if o && y
    then yes_replaces
    else yes_if g

ranked_swap :
    (m n : ℕ) (o x y g : Bool)
    → (o && (x && y)) ≡ false
    → ranked n m o y x (not g) ≡ opposite (ranked m n o x y g)
ranked_swap m n o x y g h = ground arith

abbrev same_origin : Owner → Owner → Bool
same_origin a b = not (is_empty a.origin) && equal_text a.origin b.origin

and_false : (x : Bool) → (x && false) ≡ false
and_false true = refl
and_false false = refl

same_origin_swap : (a b : Owner) → same_origin b a ≡ same_origin a b
same_origin_swap a b = elim (Bool-cases (equal_text a.origin b.origin)) [
  | inl e ↦
      let p = equal_text_same a.origin b.origin e in
      rw (equal_text_swap a.origin b.origin, e) (ap (λ t. not (is_empty t) && true) (sym p))
  | inr e ↦
      rw (equal_text_swap a.origin b.origin, e)
        (and_false (not (is_empty b.origin)) ∙ sym (and_false (not (is_empty a.origin))))
]

equal_text_self : (a : Bytes) → equal_text a a ≡ true
equal_text_self a = ground (arith, order.self a)

-- Two packages of one origin and different names do not both have the origin's name.
one_named :
    (a b : Owner)
    → equal_text a.name b.name ≡ false
    → (same_origin a b && (equal_text a.origin a.name && equal_text b.origin b.name)) ≡ false
one_named a b h = elim (Bool-cases (equal_text a.origin b.origin)) [
  | inl e ↦ elim (Bool-cases (equal_text a.origin a.name)) [
    | inl x ↦ elim (Bool-cases (equal_text b.origin b.name)) [
      | inl y ↦
          let p : a.name ≡ b.name =
            sym (equal_text_same a.origin a.name x)
            ∙ (equal_text_same a.origin b.origin e ∙ equal_text_same b.origin b.name y) in
          let no : true ≡ false = sym (equal_text_self a.name) ∙ (ap (equal_text a.name) p ∙ h) in
          absurd cc
      | inr y ↦ rw (x, y) (and_false (same_origin a b))
    ]
    | inr x ↦ rw x (and_false (same_origin a b))
  ]
  | inr e ↦ rw e (
      ap (λ t. t && (equal_text a.origin a.name && equal_text b.origin b.name))
        (and_false (not (is_empty a.origin))))
]

-- For two packages of different names that are not both to be removed, `apk_pkg_replaces_dir` gives the
-- opposite answer when they are exchanged.
pub replaces_dir_swap :
    (a b : Owner)
    → equal_text a.name b.name ≡ false
    → (a.to_be_removed && b.to_be_removed) ≡ false
    → replaces_dir (some b) (some a) ≡ opposite (replaces_dir (some a) (some b))
unfolding replaces_dir replaces_by_rank
replaces_dir_swap a b h r =
    let rank =
      ranked_swap a.replaces_priority b.replaces_priority (same_origin a b)
        (equal_text a.origin a.name) (equal_text b.origin b.name) (greater_name a.name b.name)
        (one_named a b h) in
    elim (Bool-cases a.to_be_removed) [
      | inl x ↦ elim (Bool-cases b.to_be_removed) [
        | inl y ↦ let no : true ≡ false = rw (x, y) at r in absurd cc
        | inr y ↦ rw (replaces_dir, equal_text_swap a.name b.name, h, x, y) refl
      ]
      | inr x ↦ elim (Bool-cases b.to_be_removed) [
        | inl y ↦ rw (replaces_dir, equal_text_swap a.name b.name, h, x, y) refl
        | inr y ↦
            rw
              (
                replaces_dir,
                equal_text_swap a.name b.name,
                h,
                x,
                y,
                replaces_by_rank,
                same_origin_swap a b,
                greater_name_swap a.name b.name h,
              )
              rank
      ]
    ]
