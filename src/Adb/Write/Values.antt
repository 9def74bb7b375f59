-- ===== src/Adb/Write/Values.antt =====
-- What is written reads back: numbers, blobs and objects.
use alpine_linux_mac_os.Base.{
  ◌>>=◌, ℕ, ◌+◌, ◌*◌, ◌^◌, ◌≤◌, ◌<◌, true, Bool-cases, Option, Option-cases, some, none, List, [],
  ◌∷◌, ◌++◌, append-nil, append_assoc, Bytes, length, length-append, take, drop, take-append_self,
  drop-append_self, ltb, leb, if◌then◌else◌, ◌≡◌, refl, sym, subst, ap, ◌∙◌, inl, inr, arith,
}
use mathlib.Core.Option.{some-injective}
use alpine_linux_mac_os.Adb.{Adb, val, val_type, val_value, null, le_bytes, le_value, r_deref}
use alpine_linux_mac_os.Adb.Layout.{
  length-le_bytes, le_value-le8, le_value-le16, le_value-le32, val_sum,
}
use alpine_linux_mac_os.Adb.Read.{r_blob, BlobRef, blob_null, prefixed}
use alpine_linux_mac_os.Adb.Write.{iovec_len, iovec_bytes, w_data, with_type, w_blob_vec}
use alpine_linux_mac_os.Adb.Write.Raw.{Holds, Extends, Written, IsAlignment, length-iovec_bytes}
use alpine_linux_mac_os.Adb.Write.Shared.{Cached, w_data-Written}

pub val_parts :
    (t o : ℕ)
    → t < 16
    → o < 2 ^ 28
    → (val_type (val (t * 2 ^ 28) o) ≡ t * 2 ^ 28) × (val_value (val (t * 2 ^ 28) o) ≡ o)
val_parts t o h k = rw (val_sum t o h k) (omega arith, omega arith)

pub r_deref_at :
    (adb front part back : Bytes) (v offs s : ℕ)
    → adb ≡ front ++ (part ++ back)
    → length front ≡ offs + val_value v
    → length part ≡ s
    → r_deref adb v offs s ≡ some part
unfolding r_deref
r_deref_at adb front part back v offs s e p q =
    let all = ap length e ∙ length-append front (part ++ back) in
    let rest = length-append part back in
    let inside : leb (offs + val_value v + s) (length adb) ≡ true = ground arith in
    rw (r_deref, inside)
      (ap some (
        ap (λ x. take s (drop (offs + val_value v) x)) e
        ∙ ap (λ x. take s x)
            (ap (λ n. drop n (front ++ (part ++ back))) (sym p)
              ∙ drop-append_self front (part ++ back))
        ∙ ap (λ n. take n (part ++ back)) (sym q)
        ∙ take-append_self part back))

-- The bytes that stand at an offset are those that a value with that offset refers to.
pub r_deref-Holds :
    (adb pre part post : Bytes) (t o offs s : ℕ)
    → t < 16
    → o < 2 ^ 28
    → Holds adb o (pre ++ (part ++ post))
    → length pre ≡ offs
    → length part ≡ s
    → r_deref adb (val (t * 2 ^ 28) o) offs s ≡ some part
r_deref-Holds adb pre part post t o offs s ht ho h p q =
    let value = (val_parts t o ht ho).1 in
    let front = length-append h.before pre in
    let at = h.at in
    r_deref_at adb (h.before ++ pre) part (post ++ h.behind) (val (t * 2 ^ 28) o) offs s
      (h.whole
        ∙ ap (λ x. h.before ++ x)
            (append_assoc pre (part ++ post) h.behind
              ∙ ap (λ x. pre ++ x) (append_assoc part post h.behind))
        ∙ sym (append_assoc h.before pre (part ++ (post ++ h.behind))))
      (omega arith) q

-- The result of a write under a type.
pub typed :
    (db db' : Adb) (vec : List Bytes) (a t v : ℕ)
    → (w_data db vec a >>= with_type (t * 2 ^ 28)) ≡ some (db', v)
    → (offs : ℕ) × (w_data db vec a ≡ some (db', offs)) × (v ≡ val (t * 2 ^ 28) offs)
typed db db' vec a t v e = elim (Option-cases (w_data db vec a)) [
  | inl f ↦ let no : ◌≡◌ {A = Option (Adb × ℕ)} none (some (db', v)) = rw f at e in absurd cc
  | inr ((d, o), f) ↦
      let done = some-injective (d, val (t * 2 ^ 28) o) (db', v) (rw f at e) in
      (o, f ∙ ap (λ x. some (x, o)) (ap (λ r. r.0) done), sym (ap (λ r. r.1) done))
]

pub typed-Written :
    (db db' : Adb) (vec : List Bytes) (a t v : ℕ)
    → IsAlignment a
    → Cached db
    → length db'.adb < 2 ^ 28
    → 1 ≤ iovec_len vec
    → (w_data db vec a >>= with_type (t * 2 ^ 28)) ≡ some (db', v)
    → (offs : ℕ) × (v ≡ val (t * 2 ^ 28) offs)
      × (offs < 2 ^ 28)
      × Written db.adb db'.adb offs a (iovec_bytes vec)
      × Cached db'
typed-Written db db' vec a t v h w small long e =
    let (offs, f, g) = typed db db' vec a t v e in
    let (wrote, cached) = w_data-Written db db' vec a offs h w (omega arith) f in
    let size = length-iovec_bytes vec in
    let inside = wrote.in_bounds in (offs, g, omega arith, wrote, cached)

-- A write keeps what was there, and the cache within the data.
abbrev pub Keeps : Adb → Adb → Type 0
Keeps db db' = Extends db.adb db'.adb × Cached db'

abbrev pub blob_of : Bytes → BlobRef
blob_of b = record { ptr = some b; len = length b }

prefixed_at :
    (adb header b : Bytes) (v k n : ℕ)
    → r_deref adb v 0 k ≡ some header
    → le_value header ≡ n
    → r_deref adb v k n ≡ some b
    → n ≡ length b
    → prefixed adb v k ≡ blob_of b
unfolding prefixed
prefixed_at adb header b v k n p q r s =
    rw (prefixed, p, q, r) (ap (λ x. record { ptr = some b; len = x }) s)

blob_case :
    (db db' : Adb) (vec : List Bytes) (k t v : ℕ)
    → IsAlignment k
    → 1 ≤ k
    → t < 16
    → le_value (le_bytes k (iovec_len vec)) ≡ iovec_len vec
    → Cached db
    → length db'.adb < 2 ^ 28
    → (w_data db (le_bytes k (iovec_len vec) ∷ vec) k >>= with_type (t * 2 ^ 28)) ≡ some (db', v)
    → (val_type v ≡ t * 2 ^ 28) × (prefixed db'.adb v k ≡ blob_of (iovec_bytes vec)) × Keeps db db'
unfolding iovec_len iovec_bytes prefixed
blob_case db db' vec k t v h one ht n w small e =
    let sz = iovec_len vec in
    let b = iovec_bytes vec in
    let header = length-le_bytes k sz in
    let size = length-iovec_bytes vec in
    let (offs, g, o, wrote, cached) =
      typed-Written db db' (le_bytes k sz ∷ vec) k t v h w small (omega arith) e in
    let first =
      r_deref-Holds db'.adb [] (le_bytes k sz) b t offs 0 k ht o wrote.holds refl header in
    let second =
      r_deref-Holds db'.adb (le_bytes k sz) b [] t offs k sz ht o
        (subst (λ x. Holds db'.adb offs (le_bytes k sz ++ x)) (sym (append-nil b)) wrote.holds)
        header size in
    (
      ap val_type g ∙ (val_parts t offs ht o).0,
      prefixed_at db'.adb (le_bytes k sz) b v k sz (ap (λ x. r_deref db'.adb x 0 k) g ∙ first) n
          (ap (λ x. r_deref db'.adb x k sz) g ∙ second) (sym size),
      (wrote.extends, cached),
    )

-- The blob that is read back after parts were written: the parts one behind the other, NULL if empty.
abbrev pub read_back : List Bytes → BlobRef
read_back vec = if ltb 0 (iovec_len vec) then blob_of (iovec_bytes vec) else blob_null

-- Where the entries of the cache lie within the data, the parts are shorter than 2 ^ 32 bytes
-- together, `adb_w_blob_vec` returns, and the database is then shorter than 2 ^ 28 bytes:
-- `adb_r_blob` of the value finds the parts that were written, one behind the other, or NULL
-- where they are empty; what was there before is kept, and the cache lies within the data.
pub r_blob-w_blob_vec :
    (db db' : Adb) (vec : List Bytes) (v : ℕ)
    → Cached db
    → length db'.adb < 2 ^ 28
    → iovec_len vec < 2 ^ 32
    → w_blob_vec db vec ≡ some (db', v)
    → (r_blob db'.adb v ≡ read_back vec) × Keeps db db'
unfolding w_blob_vec r_blob
r_blob-w_blob_vec db db' vec v w small sized e = elim (Bool-cases (ltb 4 (length vec))) [
  | inl a ↦
      let no : ◌≡◌ {A = Option (Adb × ℕ)} none (some (db', v)) = rw (w_blob_vec, a) at e in
      absurd cc
  | inr a ↦ elim (Bool-cases (ltb 0xffff (iovec_len vec))) [
    | inl b ↦
        let (t, p, keeps) =
          blob_case db db' vec 4 10 v (inr (inr (inl refl))) (omega arith) (omega arith)
            (le_value-le32 (iovec_len vec) sized) w small (rw (w_blob_vec, a, b) at e) in
        let some_bytes : ltb 0 (iovec_len vec) ≡ true = ground arith in
        (rw (r_blob, t, p, some_bytes) refl, keeps)
    | inr b ↦ elim (Bool-cases (ltb 0xff (iovec_len vec))) [
      | inl c ↦
          let (t, p, keeps) =
            blob_case db db' vec 2 9 v (inr (inl refl)) (omega arith) (omega arith)
              (le_value-le16 (iovec_len vec) (ground arith)) w small
              (rw (w_blob_vec, a, b, c) at e) in
          let some_bytes : ltb 0 (iovec_len vec) ≡ true = ground arith in
          (rw (r_blob, t, p, some_bytes) refl, keeps)
      | inr c ↦ elim (Bool-cases (ltb 0 (iovec_len vec))) [
        | inl d ↦
            let (t, p, keeps) =
              blob_case db db' vec 1 8 v (inl refl) (omega arith) (omega arith)
                (le_value-le8 (iovec_len vec) (ground arith)) w small
                (rw (w_blob_vec, a, b, c, d) at e) in
            (rw (r_blob, t, p, d) refl, keeps)
        | inr d ↦
            let done = some-injective (db, null) (db', v) (rw (w_blob_vec, a, b, c, d) at e) in
            subst (λ r. (r_blob r.0.adb r.1 ≡ read_back vec) × Keeps db r.0) done
              (rw d refl, (([], sym (append-nil db.adb)), w))
      ]
    ]
  ]
]
