-- ===== src/Adb/Write/Shared.antt =====
-- `adb_w_data`: what is shared are the same bytes, and the search stays within the data.
use alpine_linux_mac_os.Base.{
  ℕ, suc, ◌+◌, ◌%◌, ◌^◌, ◌≤◌, ◌<◌, Bool, true, false, ◌&&◌, Bool-cases, Option, Option-cases, some,
  none, List, [], ◌∷◌, ◌++◌, append-nil, append_assoc, All, All-set, All-get, All-append,
  All-replicate, Bytes, length, length-append, length-take, length-drop, take-append-drop, take,
  drop, get_or, set, ◌==◌, ==_iff, Ordering, and_then, compare, compare-IsTotalOrder, ◌≡◌, ◌⊎◌,
  refl, sym, subst, ap, ◌∙◌, inl, inr, arith,
}
use mathlib.Core.Option.{some-injective}
use alpine_linux_mac_os.Blob.Order.{is_eq, memcmp}
use alpine_linux_mac_os.Adb.{Entry, Adb}
use alpine_linux_mac_os.Adb.Write.{
  iovec_len, iovec_bytes, iovec_hash, iovec_same, Search, hit, slot, full, find, add_data, w_data,
  w_raw,
}
use alpine_linux_mac_os.Adb.Write.Raw.{
  Holds, Extends, Written, IsAlignment, length-iovec_bytes, w_raw-Written,
}

and_then_eq : (o p : Ordering) → is_eq (and_then o p) ≡ true → (o ≡ Ordering.eq) × (is_eq p ≡ true)
and_then_eq Ordering.lt p e = absurd cc
and_then_eq Ordering.eq p e = (refl, e)
and_then_eq Ordering.gt p e = absurd cc

and_both : (a b : Bool) → a && b ≡ true → (a ≡ true) × (b ≡ true)
and_both true b e = (refl, e)
and_both false b e = absurd cc

hit-injective : (a b : ℕ) → hit a ≡ hit b → a ≡ b
hit-injective a b e = cc

memcmp_same :
    (b base : Bytes)
    → is_eq (memcmp (length b) base b) ≡ true
    → length b ≤ length base
    → base ≡ b ++ drop (length b) base
unfolding memcmp
memcmp_same [] base e h = refl
memcmp_same (x ∷ b) [] e h = absurd (omega arith)
memcmp_same (x ∷ b) (y ∷ base) e h =
    let (o, rest) = and_then_eq (compare y x) (memcmp (length b) base b) e in
    let same = compare-IsTotalOrder.same y x o in
    ap (λ z. z ∷ base) same ∙ ap (λ l. x ∷ l) (memcmp_same b base rest (omega arith))

iovec_same_sound :
    (vec : List Bytes) (base : Bytes)
    → iovec_same vec base ≡ true
    → iovec_len vec ≤ length base
    → (behind : Bytes) × (base ≡ iovec_bytes vec ++ behind)
unfolding iovec_same iovec_len iovec_bytes
iovec_same_sound [] base e h = (base, refl)
iovec_same_sound (b ∷ vec) base e h =
    let (first, rest) =
      and_both (is_eq (memcmp (length b) base b)) (iovec_same vec (drop (length b) base)) e in
    let left = length-drop (length b) base in
    let (behind, k) = iovec_same_sound vec (drop (length b) base) rest (omega arith) in
    (
      behind,
      memcmp_same b base first (omega arith)
          ∙ ap (λ l. b ++ l) k
          ∙ sym (append_assoc b (iovec_bytes vec) behind),
    )

-- The data of an entry lies in the memory.
abbrev pub InData : Bytes → Entry → Type 0
InData adb e = e.offs + e.len ≤ length adb

-- The entries of every chain do.
abbrev pub Cached : Adb → Type 0
Cached db = All (All (InData db.adb)) db.bucket

Holds-drop :
    (adb b behind : Bytes) (offs : ℕ)
    → offs ≤ length adb
    → drop offs adb ≡ b ++ behind
    → Holds adb offs b
Holds-drop adb b behind offs h e = record {
  before = take offs adb;
  behind = behind;
  whole = sym (take-append-drop offs adb) ∙ ap (λ x. take offs adb ++ x) e;
  at = length-take offs adb ∙ omega arith;
}

shared_entry :
    (adb : Bytes) (vec : List Bytes) (hash : ℕ) (x : Entry)
    → InData adb x
    → x.hash == hash && (x.len == iovec_len vec && iovec_same vec (drop x.offs adb)) ≡ true
    → Holds adb x.offs (iovec_bytes vec) × (x.offs + iovec_len vec ≤ length adb)
shared_entry adb vec hash x w m =
    let (_, both) = and_both (x.hash == hash) _ m in
    let (sized, same) = and_both (x.len == iovec_len vec) _ both in
    let size = (==_iff x.len (iovec_len vec)).0 sized in
    let left = length-drop x.offs adb in
    let (behind, at) = iovec_same_sound vec (drop x.offs adb) same (omega arith) in
    (Holds-drop adb (iovec_bytes vec) behind x.offs (omega arith) at, omega arith)

-- An entry that is shared holds the bytes that are written, and is aligned for them.
find-hit :
    (adb : Bytes) (vec : List Bytes) (hash a : ℕ) (es : List Entry) (i offs : ℕ)
    → All (InData adb) es
    → find adb vec hash (iovec_len vec) a es i ≡ hit offs
    → Holds adb offs (iovec_bytes vec) × (offs % a ≡ 0) × (offs + iovec_len vec ≤ length adb)
unfolding find
find-hit adb vec hash a [] i offs w e = absurd cc
find-hit adb vec hash a (x ∷ es) i offs w e = elim (Bool-cases (x.len == 0)) [
  | inl k ↦ let no : ◌≡◌ {A = Search} (slot i) (hit offs) = rw (find, k) at e in absurd cc
  | inr k ↦
      elim (Bool-cases
        (x.hash == hash && (x.len == iovec_len vec && iovec_same vec (drop x.offs adb)))) [
          | inr m ↦ find-hit adb vec hash a es (suc i) offs w.1 (rw (find, k, m) at e)
          | inl m ↦ elim (Bool-cases (x.offs % a == 0)) [
            | inr n ↦
                let no : ◌≡◌ {A = Search} (slot i) (hit offs) = rw (find, k, m, n) at e in absurd cc
            | inl n ↦
                let (holds, inside) = shared_entry adb vec hash x w.0 m in
                let aligned = (==_iff (x.offs % a) 0).0 n in
                subst
                  (λ o.
                    Holds adb o (iovec_bytes vec) × (o % a ≡ 0) × (o + iovec_len vec ≤ length adb))
                  (hit-injective x.offs offs (rw (find, k, m, n) at e)) (holds, aligned, inside)
          ]
        ]
]

-- The memory only grows: the entries stay in it.
Cached-Extends :
    (adb adb' : Bytes) (bucket : List (List Entry))
    → length adb ≤ length adb'
    → All (All (InData adb)) bucket
    → All (All (InData adb')) bucket
Cached-Extends adb adb' [] h w = tt
Cached-Extends adb adb' (es ∷ bucket) h w = (grown es w.0, Cached-Extends adb adb' bucket h w.1)
  where
    grown : (es : List Entry) → All (InData adb) es → All (InData adb') es
    grown [] u = tt
    grown (e ∷ es) u = (omega arith, grown es u.1)

Extends-le : (adb adb' : Bytes) → Extends adb adb' → length adb ≤ length adb'
Extends-le adb adb' (more, e) = let size = ap length e ∙ length-append adb more in omega arith

Search-cases : (r : Search) → ((o : ℕ) × (r ≡ hit o)) ⊎ ((i : ℕ) × (r ≡ slot i)) ⊎ (r ≡ full)
Search-cases (hit o) = inl (o, refl)
Search-cases (slot i) = inr (inl (i, refl))
Search-cases full = inr (inr refl)

add_data-Written :
    (db db' : Adb) (vec : List Bytes) (hash a bucketno : ℕ) (chain : List Entry) (i offs : ℕ)
    → IsAlignment a
    → Cached db
    → All (InData db.adb) chain
    → length db'.adb < 2 ^ 32
    → add_data db vec hash (iovec_len vec) a bucketno chain i ≡ some (db', offs)
    → Written db.adb db'.adb offs a (iovec_bytes vec) × Cached db'
unfolding add_data
add_data-Written db db' vec hash a bucketno chain i offs h w v small e =
    elim (Option-cases (w_raw db vec (iovec_len vec) a)) [
      | inl f ↦ let no : ◌≡◌ {A = Option (Adb × ℕ)} none (some (db', offs)) = rw f at e in absurd cc
      | inr ((d, o), f) ↦
          let (wrote, bucket, size) = w_raw-Written db d vec (iovec_len vec) o a h f in
          let entry : Entry = record {
            hash = hash;
            offs = o % 2 ^ 32;
            len = iovec_len vec % 2 ^ 32;
          } in
          let done =
            some-injective
              (record d { bucket = set d.bucket bucketno (set chain i entry) }, o % 2 ^ 32)
              (db', offs) (rw f at e) in
          let adb : d.adb ≡ db'.adb = ap (λ r. r.0.adb) done in
          let fits : length d.adb < 2 ^ 32 = subst (λ x. length x < 2 ^ 32) (sym adb) small in
          let exact : o % 2 ^ 32 ≡ o = omega arith in
          let le : length db.adb ≤ length d.adb = Extends-le db.adb d.adb wrote.extends in
          let wrote' = subst (λ k. Written db.adb d.adb k a (iovec_bytes vec)) (sym exact) wrote in
          let old =
            subst (λ x. All (All (InData d.adb)) x) (sym bucket)
              (Cached-Extends db.adb d.adb db.bucket le w) in
          let chain' = Cached-Extends db.adb d.adb (chain ∷ []) le (v, tt) in
          subst (λ r. Written db.adb r.0.adb r.1 a (iovec_bytes vec) × Cached r.0) done
            (
              wrote',
              All-set (All (InData d.adb)) d.bucket bucketno _ old
                  (All-set (InData d.adb) chain i entry chain'.0 (omega arith)),
            )
    ]

-- Where the entries of the cache lie within the data, the alignment is 1, 2, 4 or 8, `adb_w_data`
-- returns, and the database is then shorter than 2 ^ 32 bytes: whether the bytes are shared or
-- added, they stand at the offset that is returned, which is aligned; what was there before is
-- kept, and the entries still lie within the data.
pub w_data-Written :
    (db db' : Adb) (vec : List Bytes) (a offs : ℕ)
    → IsAlignment a
    → Cached db
    → length db'.adb < 2 ^ 32
    → w_data db vec a ≡ some (db', offs)
    → Written db.adb db'.adb offs a (iovec_bytes vec) × Cached db'
unfolding w_data
w_data-Written db db' vec a offs h w small e = elim (Bool-cases (db.no_cache == 0)) [
  | inr c ↦
      let (wrote, bucket, size) =
        w_raw-Written db db' vec (iovec_len vec) offs a h (rw (w_data, c) at e) in
      (
        wrote,
        subst (λ x. All (All (InData db'.adb)) x) (sym bucket)
            (Cached-Extends db.adb db'.adb db.bucket (Extends-le db.adb db'.adb wrote.extends) w),
      )
  | inl c ↦
      let hash = iovec_hash vec 5381 in
      let bucketno = hash % length db.bucket in
      let chain = get_or db.bucket bucketno [] in
      let entries = All-get (All (InData db.adb)) db.bucket bucketno [] w tt in
      elim (Search-cases (find db.adb vec hash (iovec_len vec) a chain 0)) [
        | inl (o, f) ↦
            let (holds, aligned, inside) = find-hit db.adb vec hash a chain 0 o entries f in
            let size = length-iovec_bytes vec in
            subst (λ r. Written db.adb r.0.adb r.1 a (iovec_bytes vec) × Cached r.0)
              (some-injective (db, o) (db', offs) (rw (w_data, c, f) at e))
              (
                record {
                  extends = ([], sym (append-nil db.adb));
                  holds = holds;
                  aligned = aligned;
                  in_bounds = omega arith;
                },
                w,
              )
        | inr (inl (i, f)) ↦
            add_data-Written db db' vec hash a bucketno chain i offs h w entries small
              (rw (w_data, c, f) at e)
        | inr (inr f) ↦
            add_data-Written db db' vec hash a bucketno _ (length chain) offs h w
              (All-append (InData db.adb) chain _ entries (
                All-replicate (InData db.adb) 40 (record { hash = 0; offs = 0; len = 0 })
                  (omega arith)))
              small (rw (w_data, c, f) at e)
      ]
]
