-- ===== src/Repositories/Definitions.antt =====
-- What `apk_variable_subst` pushes behind `apk_variable_set`.
use alpine_linux_mac_os.Base.{
  ℕ, ◌%◌, ◌^◌, ◌<◌, bit_and, Bool, true, not, ◌&&◌, Option, some, none, [], ◌∷◌, List, Bytes,
  length, take, ◌==◌, if◌then◌else◌, get_or, ◌≡◌, refl, arith, ap, sym, ◌∙◌, Bool-cases, inl, inr,
  length-set, get_or-set_self,
}
use native.Mathlib.Nat.{mod-lt, mod-eq_of_lt}
use alpine_linux_mac_os.Blob.Order.{is_eq}
use alpine_linux_mac_os.Blob.Order.Laws.{blob_compare_iff}
use alpine_linux_mac_os.Hash.{
  Hash, is_item, find_item, get_hashed, insert_hashed, hash_get, hash_insert, hash_from_item,
  bucket_at, with_bucket,
}
use alpine_linux_mac_os.Hash.Laws.{IsKeyed, get-insert}
use alpine_linux_mac_os.Hash.Murmur.{blob_hash}
use alpine_linux_mac_os.Repositories.Variables.{
  Variable, variable_ops, varf_overwrite, varf_readonly, replace_item, set_found, variable_set,
}

variable_ops-IsKeyed : IsKeyed variable_ops
unfolding hash_from_item
variable_ops-IsKeyed = record {
  same = λ key item. (
    λ h. sym ((blob_compare_iff key item.key).0 (ground arith)),
    λ q. ap is_eq ((blob_compare_iff key item.key).1 (sym q)),
  );
  hashed = λ item. refl;
}

find_item-is_item :
    (key : Bytes) (items : List Variable) (v : Variable)
    → find_item variable_ops key items ≡ some v
    → is_item variable_ops key v ≡ true
unfolding find_item
find_item-is_item key [] v h = ground arith
find_item-is_item key (w ∷ items) v h = elim (Bool-cases (is_item variable_ops key w)) [
  | inl e ↦ ground arith
  | inr e ↦ find_item-is_item key items v (rw e at h)
]

find-replace :
    (key : Bytes) (var v : Variable) (items : List Variable)
    → find_item variable_ops key items ≡ some v
    → is_item variable_ops key var ≡ true
    → find_item variable_ops key (replace_item key var items) ≡ some var
unfolding find_item replace_item
find-replace key var v [] h k = ground arith
find-replace key var v (w ∷ items) h k = elim (Bool-cases (is_item variable_ops key w)) [
  | inl e ↦ rw (e, k) refl
  | inr e ↦ rw (e, e) (find-replace key var v items (rw e at h) k)
]

-- A definition takes effect: the variable is new, or the flags overwrite and it is not read-only.
abbrev pub is_settable : Option Variable → ℕ → Bool
is_settable none flags = true
is_settable (some v) flags =
    not (bit_and flags varf_overwrite == 0) && bit_and v.flags varf_readonly == 0

take_all : (b : Bytes) → take (length b) b ≡ b
take_all [] = refl
take_all (c ∷ b) = ap (λ d. c ∷ d) (take_all b)

cut_key : (key : Bytes) → length key < 256 → take (length key % 2 ^ 8) key ≡ key
cut_key key small = ap (λ n. take n key) (mod-eq_of_lt small) ∙ take_all key

get-new :
    (vars : Hash Variable) (var : Variable)
    → 0 < length vars.buckets
    → hash_get variable_ops (insert_hashed variable_ops vars var (blob_hash var.key)) var.key
      ≡ some var
unfolding hash_insert hash_from_item
get-new vars var pos =
    let e : is_item variable_ops var.key var ≡ true =
      (variable_ops-IsKeyed.same var.key var).1 refl in
    rw e at (get-insert variable_ops variable_ops-IsKeyed vars var var.key pos)

get-replaced :
    (vars : Hash Variable) (key : Bytes) (var v : Variable)
    → 0 < length vars.buckets
    → hash_get variable_ops vars key ≡ some v
    → is_item variable_ops key var ≡ true
    → hash_get variable_ops
        (record {
          buckets =
              with_bucket vars
                (blob_hash key)
                (replace_item key var (bucket_at vars (blob_hash key)));
          num_items = vars.num_items;
        })
        key
      ≡ some var
unfolding hash_get get_hashed
get-replaced vars key var v pos h k =
    let i = blob_hash key % length vars.buckets in
    let items = replace_item key var (get_or vars.buckets i []) in
    rw
      (
        length-set vars.buckets i items,
        get_or-set_self vars.buckets i items [] (mod-lt (blob_hash key) pos),
      )
      (find-replace key var v (get_or vars.buckets i []) h k)

-- The value of a variable that is found.
abbrev pub value_of : Option Variable → Option Bytes
value_of none = none
value_of (some v) = some v.value

value-set_found :
    (vars : Hash Variable) (key value : Bytes) (flags : ℕ) (v : Option Variable)
    → 0 < length vars.buckets
    → length key < 256
    → hash_get variable_ops vars key ≡ v
    → value_of (hash_get variable_ops (set_found vars key value flags v) key)
      ≡ (if is_settable v flags then some value else value_of v)
unfolding set_found find_item hash_get
value-set_found vars key value flags none pos small e =
    rw (set_found, cut_key key small)
      (ap value_of (get-new vars (record { key = key; value = value; flags = flags }) pos))
value-set_found vars key value flags (some v) pos small e =
    let var : Variable = record { key = v.key; value = value; flags = flags } in
    let k : is_item variable_ops key v ≡ true =
      find_item-is_item key (bucket_at vars (blob_hash key)) v e in
    elim (Bool-cases (bit_and flags varf_overwrite == 0)) [
      | inl o ↦ rw (o) (ap value_of e)
      | inr o ↦ elim (Bool-cases (bit_and v.flags varf_readonly == 0)) [
        | inl r ↦ rw (o, r) (ap value_of (get-replaced vars key var v pos e k))
        | inr r ↦ rw (o, r) (ap value_of e)
      ]
    ]

-- In a table with buckets, for a name below 256 bytes: behind `apk_variable_set` the name has the
-- new value if it was not defined, or if the flags overwrite and the variable was not read-only; it
-- has its old value otherwise.
pub value-variable_set :
    (vars : Hash Variable) (key value : Bytes) (flags : ℕ)
    → 0 < length vars.buckets
    → length key < 256
    → value_of (hash_get variable_ops (variable_set vars key value flags) key) ≡ (
        if is_settable (hash_get variable_ops vars key) flags
        then some value
        else value_of (hash_get variable_ops vars key))
unfolding variable_set hash_get
value-variable_set vars key value flags pos small =
    value-set_found vars key value flags (hash_get variable_ops vars key) pos small refl
