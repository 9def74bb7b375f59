-- ===== src/Adb/Objects/ReadBack.antt =====
-- Objects and arrays that are written read back.
use alpine_linux_mac_os.Base.{
  ◌>>=◌, ℕ, zero, suc, ◌*◌, ◌^◌, ◌≤◌, ◌<◌, true, false, ◌||◌, Bool-cases, Option, Option-cases,
  some, none, List, [], ◌∷◌, append-nil, All, Bytes, length, length-take, take, get_elem?, get_or,
  set, ltb, leb, ◌==◌, ◌≡◌, ◌⊎◌, refl, sym, subst, ap, ◌∙◌, inl, inr, arith,
}
use mathlib.Core.Option.{some-injective}
use alpine_linux_mac_os.Adb.ValType
use alpine_linux_mac_os.Adb.{Adb, val, val_type, null, le_bytes, le_value, r_deref}
use alpine_linux_mac_os.Adb.Layout.{length-le_bytes, le_value-le32}
use alpine_linux_mac_os.Adb.Read.{Obj, words, obj_at, r_obj, ro_val}
use alpine_linux_mac_os.Adb.Write.{iovec_len, iovec_bytes, w_data1, with_type}
use alpine_linux_mac_os.Adb.Write.Raw.{Holds}
use alpine_linux_mac_os.Adb.Write.Shared.{Cached}
use alpine_linux_mac_os.Adb.Write.Values.{typed-Written, val_parts, r_deref-Holds, Keeps}
use alpine_linux_mac_os.Adb.Objects.{
  PreCommit, allocated, commit, cleared, trim, words_bytes, w_object,
}
use alpine_linux_mac_os.Adb.Objects.Trimmed.{
  AllWords, trim_lem, length-words_bytes, words-words_bytes,
}

-- The types of an object and an array.
abbrev pub IsObject : ℕ → Type 0
IsObject t = (t ≡ 14) ⊎ (t ≡ 13)

array_or_object :
    (t : ℕ)
    → IsObject t
    → (t < 16) × (((t * 2 ^ 28 == ValType.array) || (t * 2 ^ 28 == ValType.object)) ≡ true)
array_or_object t (inl e) = rw e (omega arith, refl)
array_or_object t (inr e) = rw e (omega arith, refl)

obj_at_found :
    (adb b : Bytes) (v n : ℕ) (xs : List ℕ)
    → (n == 0) ≡ false
    → r_deref adb v 0 (4 * n) ≡ some b
    → words n b ≡ xs
    → obj_at adb v n ≡ record { obj = xs; num = n; is_dynamic = false }
unfolding obj_at
obj_at_found adb b v n xs z r w =
    rw (obj_at, z, r) (ap (λ x. record { obj = x; num = n; is_dynamic = false }) w)

r_obj_at :
    (adb header b : Bytes) (v n : ℕ) (xs : List ℕ)
    → ((val_type v == ValType.array) || (val_type v == ValType.object)) ≡ true
    → r_deref adb v 0 4 ≡ some header
    → le_value header ≡ n
    → (n == 0) ≡ false
    → r_deref adb v 0 (4 * n) ≡ some b
    → words n b ≡ xs
    → r_obj adb v ≡ record { obj = xs; num = n; is_dynamic = false }
unfolding r_obj
r_obj_at adb header b v n xs kind p q z r w =
    rw (r_obj, kind, p) (ap (obj_at adb v) q ∙ obj_at_found adb b v n xs z r w)

-- An array of values that begins with its length is read as an object.
r_obj_stored :
    (adb : Bytes) (xs : List ℕ) (t o : ℕ)
    → IsObject t
    → o < 2 ^ 28
    → AllWords (suc (length xs) ∷ xs)
    → Holds adb o (words_bytes (suc (length xs) ∷ xs))
    → r_obj adb (val (t * 2 ^ 28) o)
      ≡ record { obj = suc (length xs) ∷ xs; num = suc (length xs); is_dynamic = false }
unfolding r_obj obj_at words_bytes
r_obj_stored adb xs t o ht ho w h =
    let all = suc (length xs) ∷ xs in
    let (small, kind) = array_or_object t ht in
    let v = val (t * 2 ^ 28) o in
    let type : val_type v ≡ t * 2 ^ 28 = (val_parts t o small ho).0 in
    let first =
      r_deref-Holds adb [] (le_bytes 4 (suc (length xs))) (words_bytes xs) t o 0 4 small ho h refl
        (length-le_bytes 4 (suc (length xs))) in
    let whole =
      r_deref-Holds adb [] (words_bytes all) [] t o 0 (4 * suc (length xs)) small ho
        (subst (Holds adb o) (sym (append-nil (words_bytes all))) h) refl
        (length-words_bytes all) in
    r_obj_at adb (le_bytes 4 (suc (length xs))) (words_bytes all) v (suc (length xs)) all
      (ap (λ x. (x == ValType.array) || (x == ValType.object)) type ∙ kind) first
      (le_value-le32 (suc (length xs)) w.0) (ground arith) whole (words-words_bytes all w)

-- An object as it is built: the elements that count are allocated, and every element is a value.
pub record IsObj (o : Obj) : Type 0 where
  pub one : 1 ≤ o.num
  pub within : o.num ≤ length o.obj
  pub values : AllWords o.obj
  pub bounded : length o.obj < 2 ^ 26

All-take : (P : ℕ → Type 0) (n : ℕ) (xs : List ℕ) → All P xs → All P (take n xs)
All-take P zero xs w = tt
All-take P (suc n) [] w = tt
All-take P (suc n) (x ∷ xs) w = (w.0, All-take P n xs w.1)

-- The elements that are written: their number, and those behind it.
stored_shape :
    (obj : List ℕ) (n : ℕ)
    → 1 ≤ n
    → n ≤ length obj
    → AllWords obj
    → length obj < 2 ^ 26
    → (rest : List ℕ) × (take n (set obj 0 n) ≡ suc (length rest) ∷ rest)
      × (n ≡ suc (length rest))
      × AllWords (suc (length rest) ∷ rest)
stored_shape [] n h k w b = absurd (omega arith)
stored_shape (y ∷ ys) zero h k w b = absurd (omega arith)
stored_shape (y ∷ ys) (suc m) h k w b =
    let size : suc m ≡ suc (length (take m ys)) = omega (arith, length-take m ys) in
    (
      take m ys,
      ap (λ x. x ∷ take m ys) size,
      size,
      (omega arith, All-take (λ v. v < 2 ^ 32) m ys w.1),
    )

get_elem?-take : (n i : ℕ) (xs : List ℕ) → i < n → get_elem? (take n xs) i ≡ get_elem? xs i
get_elem?-take zero i xs h = absurd (omega arith)
get_elem?-take (suc n) i [] h = refl
get_elem?-take (suc n) zero (x ∷ xs) h = refl
get_elem?-take (suc n) (suc i) (x ∷ xs) h = get_elem?-take n i xs (omega arith)

get_elem?-set_first : (xs : List ℕ) (i v : ℕ) → 1 ≤ i → get_elem? (set xs 0 v) i ≡ get_elem? xs i
get_elem?-set_first [] i v h = refl
get_elem?-set_first (x ∷ xs) zero v h = absurd (omega arith)
get_elem?-set_first (x ∷ xs) (suc i) v h = refl

get_elem?-get_or : (xs : List ℕ) (i : ℕ) → i < length xs → get_elem? xs i ≡ some (get_or xs i 0)
get_elem?-get_or [] i h = absurd (omega arith)
get_elem?-get_or (x ∷ xs) zero h = refl
get_elem?-get_or (x ∷ xs) (suc i) h = get_elem?-get_or xs i (omega arith)

-- A field that is left out is not set.
left_out : (o : Obj) (i : ℕ) → IsObj o → trim o.obj o.num ≤ i → ro_val o i ≡ some null
unfolding ro_val
left_out o i w h = elim (Bool-cases (leb o.num i)) [
  | inl e ↦ rw (ro_val, e) refl
  | inr e ↦
      let (le, one, unset) = trim_lem o.obj o.num in
      let within = w.within in
      let less : i < o.num = ground arith in
      rw (ro_val, e) (get_elem?-get_or o.obj i (omega arith) ∙ ap some (unset i h less))
]

kept :
    (o : Obj) (i : ℕ)
    → IsObj o
    → 1 ≤ i
    → ro_val
        (record {
          obj = take (trim o.obj o.num) (set o.obj 0 (trim o.obj o.num));
          num = trim o.obj o.num;
          is_dynamic = false;
        })
        i
      ≡ ro_val o i
unfolding ro_val
kept o i w h =
    let n = trim o.obj o.num in
    let (le, one, unset) = trim_lem o.obj o.num in
    elim (Bool-cases (leb n i)) [
      | inl e ↦ rw e (sym (left_out o i w (ground arith)))
      | inr e ↦
          let more : leb o.num i ≡ false = ground arith in
          rw (e, more)
            (get_elem?-take n i (set o.obj 0 n) (ground arith) ∙ get_elem?-set_first o.obj i n h)
    ]

not_read : (adb : Bytes) (i : ℕ) → 1 ≤ i → ro_val (r_obj adb null) i ≡ some null
unfolding ro_val r_obj
not_read adb i h = ground arith

Obj-equal :
    {xs ys : List ℕ} {n m : ℕ}
    → xs ≡ ys
    → n ≡ m
    → ◌≡◌ {A = Obj}
        (record { obj = ys; num = m; is_dynamic = false })
        (record { obj = xs; num = n; is_dynamic = false })
Obj-equal {xs} {ys} {n} {m} p q =
    ap (λ x. record { obj = x; num = m; is_dynamic = false }) (sym p)
    ∙ ap (λ k. record { obj = xs; num = k; is_dynamic = false }) (sym q)

-- What is read where some field was set.
stored_read :
    (db d : Adb) (o : Obj) (t u : ℕ)
    → IsObject t
    → IsObj o
    → Cached db
    → length d.adb < 2 ^ 28
    → 1 ≤ trim o.obj o.num
    → (w_data1 db (some (words_bytes (take (trim o.obj o.num) (set o.obj 0 (trim o.obj o.num))))) 4
        >>= with_type (t * 2 ^ 28))
      ≡ some (d, u)
    → (r_obj d.adb u ≡ record {
      obj = take (trim o.obj o.num) (set o.obj 0 (trim o.obj o.num));
      num = trim o.obj o.num;
      is_dynamic = false;
    })
      × Keeps db d
unfolding w_data1 iovec_len iovec_bytes
stored_read db d o t u ht w c small one g =
    let n = trim o.obj o.num in
    let (le, _, unset) = trim_lem o.obj o.num in
    let within = w.within in
    let (rest, shape, size, values) = stored_shape o.obj n one (omega arith) w.values w.bounded in
    let b = words_bytes (take n (set o.obj 0 n)) in
    let long : length b ≡ 4 * suc (length rest) =
      ap (λ x. length (words_bytes x)) shape ∙ length-words_bytes (suc (length rest) ∷ rest) in
    let (offs, v, o28, wrote, cached) =
      typed-Written db d (b ∷ []) 4 t u (inr (inr (inl refl))) c small (omega arith) g in
    let holds = subst (Holds d.adb offs) (append-nil b ∙ ap words_bytes shape) wrote.holds in
    (
      ap (r_obj d.adb) v
          ∙ r_obj_stored d.adb rest t offs ht o28 values holds
          ∙ Obj-equal shape size,
      (wrote.extends, cached),
    )

-- Where an object or array is written, and what the `pre_commit` of its schema makes of it has
-- less than 2 ^ 26 elements, which are allocated and are 32-bit numbers, the entries of the cache lie
-- within the data, and the database is then shorter than 2 ^ 28 bytes: every field that is read from
-- the value is the one that stood in the object after `pre_commit`, or that was set where there is
-- none, the object is reset with the allocation it had, what was in the database before is kept,
-- and the cache lies within the data.
pub r_obj-w_object :
    (pre : PreCommit) (db db' : Adb) (o o' : Obj) (t v : ℕ)
    → IsObject t
    → IsObj (commit pre db o)
    → Cached db
    → length db'.adb < 2 ^ 28
    → w_object pre db o (t * 2 ^ 28) ≡ some (db', o', v)
    → ((i : ℕ) → 1 ≤ i → ro_val (r_obj db'.adb v) i ≡ ro_val (commit pre db o) i)
      × (o' ≡ cleared (allocated o) (commit pre db o))
      × Keeps db db'
unfolding w_object
r_obj-w_object pre db db' o0 o' t v ht w c small e =
    let o = commit pre db o0 in
    let left = cleared (allocated o0) o in
    elim (Bool-cases (ltb 1 (trim o.obj o.num))) [
      | inr f ↦
          let done = some-injective (db, left, null) (db', o', v) (rw (w_object, f) at e) in
          subst
            (λ r.
              ((i : ℕ) → 1 ≤ i → ro_val (r_obj r.0.adb r.2) i ≡ ro_val o i)
              × (r.1 ≡ left)
              × Keeps db r.0)
            done
            (
              λ i h. not_read db.adb i h ∙ sym (left_out o i w (ground arith)),
              refl,
              (([], sym (append-nil db.adb)), c),
            )
      | inl f ↦
          let n = trim o.obj o.num in
          let b = words_bytes (take n (set o.obj 0 n)) in
          let (le, one, unset) = trim_lem o.obj o.num in
          let within = w.within in
          elim (Option-cases (w_data1 db (some b) 4 >>= with_type (t * 2 ^ 28))) [
            | inl g ↦
                let no : ◌≡◌ {A = Option (Adb × Obj × ℕ)} none (some (db', o', v)) =
                  rw (w_object, f, g) at e in
                absurd cc
            | inr ((d, u), g) ↦
                let done = some-injective (d, left, u) (db', o', v) (rw (w_object, f, g) at e) in
                let size : length d.adb < 2 ^ 28 =
                  subst (λ x. length x < 2 ^ 28) (sym (ap (λ r. r.0.adb) done)) small in
                let (read, keeps) = stored_read db d o t u ht w c size (ground arith) g in
                subst
                  (λ r.
                    ((i : ℕ) → 1 ≤ i → ro_val (r_obj r.0.adb r.2) i ≡ ro_val o i)
                    × (r.1 ≡ left)
                    × Keeps db r.0)
                  done (λ i h. ap (λ x. ro_val x i) read ∙ kept o i w h, refl, keeps)
          ]
    ]
