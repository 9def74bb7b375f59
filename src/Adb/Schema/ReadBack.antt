-- ===== src/Adb/Schema/ReadBack.antt =====
-- A text that is turned into a value reads back from the database.
use alpine_linux_mac_os.Base.{
  ℕ, ◌^◌, ◌<◌, Bool, true, false, not, ◌||◌, Bool-cases, Option, some, none, [], ◌∷◌, Bytes, length,
  get_or, ◌==◌, ◌≡◌, ap, inl, inr, arith,
}
use alpine_linux_mac_os.Ctype.{package_name, blob_spn}
use alpine_linux_mac_os.Blob.Pull.{pull_uint}
use alpine_linux_mac_os.Adb.{Adb}
use alpine_linux_mac_os.Adb.Read.{r_int, r_blob}
use alpine_linux_mac_os.Adb.Write.{iovec_len, w_blob, w_int}
use alpine_linux_mac_os.Adb.Write.Shared.{Cached}
use alpine_linux_mac_os.Adb.Write.Values.{Keeps, read_back, r_blob-w_blob_vec}
use alpine_linux_mac_os.Adb.Write.Numbers.{r_int-w_int}
use alpine_linux_mac_os.Adb.Schema.{
  Converted, refused, converted, written, name_fromstring, number_fromstring,
}

written_some :
    (o : Option (Adb × ℕ)) (db' : Adb) (v : ℕ) → written o ≡ converted db' v → o ≡ some (db', v)
written_some none db' v e = absurd cc
written_some (some (d, u)) db' v e = ap some (unconverted e)
  where
    unconverted : converted d u ≡ converted db' v → ◌≡◌ {A = Adb × ℕ} (d, u) (db', v)
    unconverted h = cc

-- A number that is converted was the whole text, and it reads back.
pub r_int-number_fromstring :
    (radix : ℕ) (db db' : Adb) (b : Bytes) (v : ℕ)
    → (pull_uint b radix).0 < 2 ^ 64
    → Cached db
    → length db'.adb < 2 ^ 28
    → number_fromstring radix db b ≡ converted db' v
    → (r_int db'.adb v ≡ (pull_uint b radix).0) × (length (pull_uint b radix).1 ≡ 0) × Keeps db db'
unfolding number_fromstring
r_int-number_fromstring radix db db' b v h w small e =
    elim (Bool-cases (length (pull_uint b radix).1 == 0)) [
      | inr f ↦ let no : ◌≡◌ {A = Converted} (refused _) (converted db' v) = rw f at e in absurd cc
      | inl f ↦
          let done = written_some (w_int db (pull_uint b radix).0) db' v (rw f at e) in
          let (read, keeps) = r_int-w_int db db' (pull_uint b radix).0 v h w small done in
          (read, ground arith, keeps)
    ]

-- A name that is converted is a name of a package, and it reads back.
pub r_blob-name_fromstring :
    (isalnum : ℕ → Bool) (db db' : Adb) (b : Bytes) (v : ℕ)
    → Cached db
    → length db'.adb < 2 ^ 28
    → length b < 2 ^ 32
    → name_fromstring isalnum db b ≡ converted db' v
    → (r_blob db'.adb v ≡ read_back (b ∷ []))
      × (isalnum (get_or b 0 0) ≡ true)
      × ((blob_spn b package_name).ret ≡ false)
      × Keeps db db'
unfolding name_fromstring w_blob iovec_len
r_blob-name_fromstring isalnum db db' b v w small sized e =
    elim (Bool-cases ((length b == 0) || not (isalnum (get_or b 0 0)))) [
      | inl f ↦ let no : ◌≡◌ {A = Converted} (refused _) (converted db' v) = rw f at e in absurd cc
      | inr f ↦ elim (Bool-cases (blob_spn b package_name).ret) [
        | inl g ↦
            let no : ◌≡◌ {A = Converted} (refused _) (converted db' v) = rw (f, g) at e in absurd cc
        | inr g ↦
            let done = written_some (w_blob db b) db' v (rw (f, g) at e) in
            let (read, keeps) = r_blob-w_blob_vec db db' (b ∷ []) v w small (omega arith) done in
            (read, ground arith, g, keeps)
      ]
    ]
