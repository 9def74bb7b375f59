-- ===== src/Adb/Write/Numbers.antt =====
-- Numbers that are written read back.
use alpine_linux_mac_os.Base.{
  ◌>>=◌, ℕ, ◌*◌, ◌^◌, ◌≤◌, ◌<◌, Bool-cases, some, [], ◌∷◌, append-nil, length, leb, ◌≡◌, refl, sym,
  subst, ap, ◌∙◌, inl, inr, arith,
}
use mathlib.Core.Option.{some-injective}
use alpine_linux_mac_os.Adb.ValType
use alpine_linux_mac_os.Adb.{Adb, val, val_type, le_bytes, le_value, r_deref}
use alpine_linux_mac_os.Adb.Layout.{length-le_bytes, le_value-le32, le_value-le64}
use alpine_linux_mac_os.Adb.Read.{r_int, number}
use alpine_linux_mac_os.Adb.Write.{iovec_len, iovec_bytes, w_data1, with_type, w_int}
use alpine_linux_mac_os.Adb.Write.Shared.{Cached}
use alpine_linux_mac_os.Adb.Write.Values.{typed-Written, val_parts, r_deref-Holds, Keeps}

number_case :
    (db db' : Adb) (k t v n : ℕ)
    → 1 ≤ k
    → t < 16
    → le_value (le_bytes k n) ≡ n
    → Cached db
    → length db'.adb < 2 ^ 28
    → (w_data1 db (some (le_bytes k n)) 4 >>= with_type (t * 2 ^ 28)) ≡ some (db', v)
    → (val_type v ≡ t * 2 ^ 28) × (number (r_deref db'.adb v 0 k) ≡ n) × Keeps db db'
unfolding w_data1 iovec_len iovec_bytes number
number_case db db' k t v n one ht m w small e =
    let b = le_bytes k n in
    let size = length-le_bytes k n in
    let (offs, g, o, wrote, cached) =
      typed-Written db db' (b ∷ []) 4 t v (inr (inr (inl refl))) w small (omega arith) e in
    let found = r_deref-Holds db'.adb [] b [] t offs 0 k ht o wrote.holds refl size in
    (
      ap val_type g ∙ (val_parts t offs ht o).0,
      ap (λ x. number (r_deref db'.adb x 0 k)) g ∙ ap number found ∙ m,
      (wrote.extends, cached),
    )

-- Where the entries of the cache lie within the data, the number is below 2 ^ 64, `adb_w_int`
-- returns, and the database is then shorter than 2 ^ 28 bytes: `adb_r_int` of the value is the
-- number that was written; what was there before is kept, and the cache lies within the data.
pub r_int-w_int :
    (db db' : Adb) (n v : ℕ)
    → n < 2 ^ 64
    → Cached db
    → length db'.adb < 2 ^ 28
    → w_int db n ≡ some (db', v)
    → (r_int db'.adb v ≡ n) × Keeps db db'
unfolding w_int r_int
r_int-w_int db db' n v h w small e = elim (Bool-cases (leb 0x100000000 n)) [
  | inl a ↦
      let (t, p, keeps) =
        number_case db db' 8 3 v n (omega arith) (omega arith) (le_value-le64 n h) w small
          (rw (w_int, a) at e) in
      (rw (r_int, t, p) refl, keeps)
  | inr a ↦ elim (Bool-cases (leb 0x10000000 n)) [
    | inl b ↦
        let (t, p, keeps) =
          number_case db db' 4 2 v n (omega arith) (omega arith) (le_value-le32 n (ground arith)) w
            small (rw (w_int, a, b) at e) in
        (rw (r_int, t, p) refl, keeps)
    | inr b ↦
        let low : n < 2 ^ 28 = ground arith in
        let (t, p) = val_parts 1 n (omega arith) low in
        let done = some-injective (db, val ValType.int n) (db', v) (rw (w_int, a, b) at e) in
        subst (λ r. (r_int r.0.adb r.1 ≡ n) × Keeps db r.0) done
          (rw (r_int, t, p) refl, (([], sym (append-nil db.adb)), w))
  ]
]
