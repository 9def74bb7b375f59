-- ===== src/Adb/Write/Memory.antt =====
-- The memory that a write allocates: doubling reaches what is needed.
use alpine_linux_mac_os.Base.{
  ℕ, zero, suc, ◌*◌, ◌%◌, ◌^◌, ◌≤◌, ◌<◌, true, false, Bool-cases, Option, some, none, length, leb,
  ◌==◌, leb→le, if◌then◌else◌, ◌≡◌, ◌≢◌, ◌⊎◌, refl, subst, inl, inr, arith,
}
use mathlib.Core.Option.{some-injective}
use alpine_linux_mac_os.Adb.{Adb}
use alpine_linux_mac_os.Adb.Write.{grow, reserve}

abbrev doubled : ℕ → ℕ → ℕ
doubled zero n = n
doubled (suc k) n = doubled k (2 * n)

grow_reaches :
    (k need alloc : ℕ)
    → need ≤ 2 ^ 31
    → need ≤ doubled k alloc
    → alloc % 8 ≡ 0
    → (n : ℕ) × (grow (suc k) need alloc ≡ some n) × (need ≤ n) × (n % 8 ≡ 0)
unfolding grow
grow_reaches zero need alloc h g m =
    let enough : leb need alloc ≡ true = ground arith in rw (grow, enough) (alloc, refl, g, m)
grow_reaches (suc k) need alloc h g m = elim (Bool-cases (leb need alloc)) [
  | inl e ↦ rw (grow, e) (alloc, refl, leb→le need alloc e, m)
  | inr e ↦
      let less : alloc < need = ground arith in
      let twice : alloc * 2 % 2 ^ 32 ≡ 2 * alloc = omega arith in
      rw (grow, e, twice) (grow_reaches k need (2 * alloc) h g (omega arith))
]

-- A database that may grow, or one whose memory suffices.
abbrev pub MayHold : Adb → ℕ → Type 0
MayHold db need = (need ≤ db.alloc_len) ⊎ ((need ≤ 2 ^ 31) × (length db.bucket ≢ 0))

-- Doubling at most 32 times reaches any need up to 2 ^ 31; the memory stays a multiple of 8.
pub reserve_total :
    (db : Adb) (need : ℕ)
    → MayHold db need
    → db.alloc_len % 8 ≡ 0
    → (n : ℕ) × (reserve db need ≡ some n) × (need ≤ n) × (n % 8 ≡ 0)
unfolding reserve
reserve_total db need h m = elim (Bool-cases (leb need db.alloc_len)) [
  | inl e ↦ rw (reserve, e) (db.alloc_len, refl, leb→le need db.alloc_len e, m)
  | inr e ↦
      let grows : (need ≤ 2 ^ 31) × ((length db.bucket == 0) ≡ false) = ground arith in
      let start = if db.alloc_len == 0 then 8192 else db.alloc_len in
      let eight : start % 8 ≡ 0 = ground arith in
      let some_bytes : 1 ≤ start = ground arith in
      rw (reserve, e, grows.1) (grow_reaches 32 need start grows.0 (omega (arith, grows.0)) eight)
]

grow_enough :
    (k need alloc n : ℕ) → alloc % 8 ≡ 0 → grow k need alloc ≡ some n → (need ≤ n) × (n % 8 ≡ 0)
unfolding grow
grow_enough zero need alloc n m e = absurd cc
grow_enough (suc k) need alloc n m e = elim (Bool-cases (leb need alloc)) [
  | inl t ↦
      let same = some-injective alloc n (rw (grow, t) at e) in
      (subst (λ x. need ≤ x) same (leb→le need alloc t), subst (λ x. x % 8 ≡ 0) same m)
  | inr t ↦ grow_enough k need (alloc * 2 % 2 ^ 32) n (omega arith) (rw (grow, t) at e)
]

pub reserve_enough :
    (db : Adb) (need n : ℕ)
    → db.alloc_len % 8 ≡ 0
    → reserve db need ≡ some n
    → (need ≤ n) × (n % 8 ≡ 0)
unfolding reserve
reserve_enough db need n m e = elim (Bool-cases (leb need db.alloc_len)) [
  | inl t ↦
      let same = some-injective db.alloc_len n (rw (reserve, t) at e) in
      (subst (λ x. need ≤ x) same (leb→le need db.alloc_len t), subst (λ x. x % 8 ≡ 0) same m)
  | inr t ↦ elim (Bool-cases (length db.bucket == 0)) [
    | inl u ↦ let no : ◌≡◌ {A = Option ℕ} none (some n) = rw (reserve, t, u) at e in absurd cc
    | inr u ↦
        grow_enough 33 need (if db.alloc_len == 0 then 8192 else db.alloc_len) n (ground arith)
          (rw (reserve, t, u) at e)
  ]
]
