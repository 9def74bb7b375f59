-- ===== src/Adb/Write/Raw.antt =====
-- `adb_w_raw`: the memory suffices, and what is written stands at the offset that is returned.
use alpine_linux_mac_os.Base.{
  ℕ, ◌+◌, ◌-◌, ◌%◌, ◌≤◌, ◌<◌, Option, Option-cases, some, none, List, [], ◌∷◌, ◌++◌, append-nil,
  append_assoc, Bytes, length, length-append, length-replicate, replicate, ◌≡◌, ◌⊎◌, refl, sym,
  subst, ap, ◌∙◌, inl, inr, arith,
}
use mathlib.Core.Option.{some-injective}
use alpine_linux_mac_os.Adb.{Adb, round_up}
use alpine_linux_mac_os.Adb.Write.Memory.{MayHold, reserve_total, reserve_enough}
use alpine_linux_mac_os.Adb.Write.{reserve, iovec_len, iovec_bytes, w_raw}

pub length-iovec_bytes : (vec : List Bytes) → length (iovec_bytes vec) ≡ iovec_len vec
unfolding iovec_bytes iovec_len
length-iovec_bytes [] = refl
length-iovec_bytes (b ∷ vec) =
    length-append b (iovec_bytes vec) ∙ ap (λ n. length b + n) (length-iovec_bytes vec)

-- Bytes stand at an offset of the memory.
pub record Holds (adb : Bytes) (offs : ℕ) (b : Bytes) : Type 0 where
  pub before : Bytes
  pub behind : Bytes
  pub whole : adb ≡ before ++ (b ++ behind)
  pub at : length before ≡ offs

-- The memory that is there stays as it is.
abbrev pub Extends : Bytes → Bytes → Type 0
Extends adb adb' = (more : Bytes) × (adb' ≡ adb ++ more)

pub Holds-Extends :
    (adb adb' : Bytes) (offs : ℕ) (b : Bytes)
    → Extends adb adb'
    → Holds adb offs b
    → Holds adb' offs b
Holds-Extends adb adb' offs b (more, e) h = record {
  before = h.before;
  behind = h.behind ++ more;
  whole =
      rw (e, h.whole, append_assoc h.before (b ++ h.behind) more, append_assoc b h.behind more)
        refl;
  at = h.at;
}

abbrev pub padded : Adb → ℕ → Bytes
padded db alignment = db.adb ++ replicate (round_up (length db.adb) alignment - length db.adb) 0

-- What a write of bytes does to the memory of a database.
pub record Written (adb adb' : Bytes) (offs alignment : ℕ) (b : Bytes) : Type 0 where
  pub extends : Extends adb adb'
  pub holds : Holds adb' offs b
  pub aligned : offs % alignment ≡ 0
  pub in_bounds : offs + length b ≤ length adb'

-- The alignments of the format.
abbrev pub IsAlignment : ℕ → Type 0
IsAlignment a = (a ≡ 1) ⊎ (a ≡ 2) ⊎ (a ≡ 4) ⊎ (a ≡ 8)

round_up_lem :
    (n a : ℕ) → IsAlignment a → (n ≤ round_up n a) × (round_up n a % a ≡ 0) × (round_up n a < n + a)
round_up_lem n a (inl e) = rw e (omega arith, omega arith, omega arith)
round_up_lem n a (inr (inl e)) = rw e (omega arith, omega arith, omega arith)
round_up_lem n a (inr (inr (inl e))) = rw e (omega arith, omega arith, omega arith)
round_up_lem n a (inr (inr (inr e))) = rw e (omega arith, omega arith, omega arith)

round_up_le : (n a m : ℕ) → IsAlignment a → n ≤ m → m % 8 ≡ 0 → round_up n a ≤ m
round_up_le n a m (inl e) h k = rw e (omega arith)
round_up_le n a m (inr (inl e)) h k = rw e (omega arith)
round_up_le n a m (inr (inr (inl e))) h k = rw e (omega arith)
round_up_le n a m (inr (inr (inr e))) h k = rw e (omega arith)

length-padded :
    (db : Adb) (a : ℕ) → IsAlignment a → length (padded db a) ≡ round_up (length db.adb) a
length-padded db a h =
    let (le, aligned, less) = round_up_lem (length db.adb) a h in
    rw
      (
        length-append db.adb (replicate (round_up (length db.adb) a - length db.adb) 0),
        length-replicate {A = ℕ} (round_up (length db.adb) a - length db.adb) 0,
      )
      (omega arith)

-- The database after a write, where n bytes of memory are allocated.
abbrev after : Adb → ℕ → ℕ → Bytes → Adb
after db a n b = record db { adb = padded db a ++ b; alloc_len = n }

after-Written :
    (db : Adb) (a n : ℕ) (b : Bytes)
    → IsAlignment a
    → Written db.adb (after db a n b).adb (length (padded db a)) a b
after-Written db a n b h =
    let pad : Bytes = replicate (round_up (length db.adb) a - length db.adb) 0 in
    let all = length-append (padded db a) b in
    let (le, aligned, less) = round_up_lem (length db.adb) a h in
    record {
      extends = (pad ++ b, append_assoc db.adb pad b);
      holds = record {
        before = padded db a;
        behind = [];
        whole = ap (λ x. padded db a ++ x) (sym (append-nil b));
        at = refl;
      };
      aligned = ap (λ x. x % a) (length-padded db a h) ∙ aligned;
      in_bounds = omega arith;
    }

pub w_raw-Written :
    (db db' : Adb) (vec : List Bytes) (len offs a : ℕ)
    → IsAlignment a
    → w_raw db vec len a ≡ some (db', offs)
    → Written db.adb db'.adb offs a (iovec_bytes vec)
      × (db'.bucket ≡ db.bucket)
      × (length db'.adb ≡ offs + iovec_len vec)
unfolding w_raw
w_raw-Written db db' vec len offs a h e =
    elim (Option-cases (reserve db (length (padded db a) + len))) [
      | inl f ↦ let no : ◌≡◌ {A = Option (Adb × ℕ)} none (some (db', offs)) = rw f at e in absurd cc
      | inr (n, f) ↦
          subst
            (λ r.
              Written db.adb r.0.adb r.1 a (iovec_bytes vec)
              × (r.0.bucket ≡ db.bucket)
              × (length r.0.adb ≡ r.1 + iovec_len vec))
            (some-injective (after db a n (iovec_bytes vec), length (padded db a)) (db', offs)
              (rw f at e))
            (
              after-Written db a n (iovec_bytes vec) h,
              refl,
              length-append (padded db a) (iovec_bytes vec)
                  ∙ ap (λ x. length (padded db a) + x) (length-iovec_bytes vec),
            )
    ]

-- The memory in use does not pass the memory that is allocated, which is a multiple of 8.
abbrev pub WithinMemory : Adb → Type 0
WithinMemory db = (length db.adb ≤ db.alloc_len) × (db.alloc_len % 8 ≡ 0)

-- Where the memory in use does not pass the memory that is allocated, this is a multiple of 8,
-- the alignment is 1, 2, 4 or 8, and `adb_w_raw` returns: the zeros that align the data fit into
-- the memory before more is allocated, and afterwards the memory in use does not pass the memory
-- that is allocated, which is a multiple of 8.
pub w_raw-WithinMemory :
    (db db' : Adb) (vec : List Bytes) (offs a : ℕ)
    → IsAlignment a
    → WithinMemory db
    → w_raw db vec (iovec_len vec) a ≡ some (db', offs)
    → (length (padded db a) ≤ db.alloc_len) × WithinMemory db'
unfolding w_raw
w_raw-WithinMemory db db' vec offs a h (w, m) e =
    elim (Option-cases (reserve db (length (padded db a) + iovec_len vec))) [
      | inl f ↦ let no : ◌≡◌ {A = Option (Adb × ℕ)} none (some (db', offs)) = rw f at e in absurd cc
      | inr (n, f) ↦
          let (enough, eight) = reserve_enough db _ n m f in
          let whole = length-append (padded db a) (iovec_bytes vec) in
          let part = length-iovec_bytes vec in
          (
            rw (length-padded db a h) (round_up_le (length db.adb) a db.alloc_len h w m),
            subst (λ r. WithinMemory r.0)
                (some-injective (after db a n (iovec_bytes vec), length (padded db a)) (db', offs)
                  (rw f at e))
                (omega arith, eight),
          )
    ]

-- `adb_w_raw` returns where the memory that is allocated is a multiple of 8, and suffices, or the
-- database has buckets and needs at most 2 ^ 31 bytes.
pub w_raw_total :
    (db : Adb) (vec : List Bytes) (len a : ℕ)
    → db.alloc_len % 8 ≡ 0
    → MayHold db (length (padded db a) + len)
    → (db' : Adb) × (offs : ℕ) × (w_raw db vec len a ≡ some (db', offs))
unfolding w_raw
w_raw_total db vec len a m h =
    let (n, e, enough, eight) = reserve_total db (length (padded db a) + len) h m in
    (after db a n (iovec_bytes vec), length (padded db a), rw e refl)
