-- ===== src/Blob/Subst.antt =====
-- `apk_blob_subst` of apk-tools/src/blob.c, with its callback as a parameter. A pointer into the array
-- is the address of the array and the number of bytes before it, modulo 2 ^ 64.
pub mod Total
pub mod Bounds
use alpine_linux_mac_os.Base.{
  ℕ, zero, suc, ◌+◌, ◌-◌, ◌%◌, ◌^◌, Bool, Option, some, none, [], ◌∷◌, Bytes, codes, length, take,
  ltb, leb, ◌==◌, if◌then◌else◌,
}
use alpine_linux_mac_os.Blob.{Buffer, Sink, buffer}
use alpine_linux_mac_os.Blob.Search.{blob_split}
use alpine_linux_mac_os.Blob.Push.{push_blob}
use alpine_linux_mac_os.Blob.Pull.{pull_uint}

-- -APKE_BUFFER_SIZE, -APKE_FORMAT_INVALID, -APKE_REPO_VARIABLE, -APKE_REPO_SYNTAX,
-- -APKE_REPO_KEYWORD; and a pointer that is left before the array, behind which nothing is defined.
pub data Error : Type 0 where
  buffer_size format_invalid repo_variable repo_syntax repo_keyword outside_array : Error

pub data Result (A : Type 0) : Type 0 where
  ok : A → Result A
  err : Error → Result A

-- What is written behind the address `max_advance` is given back, in an array at the address `base`.
unfoldable pub limited : ℕ → ℕ → Sink → Result Sink
limited base max_advance none = ok none
limited base max_advance (some o) =
    let ptr = base + length o.written in
    if leb ptr max_advance
    then ok (some o)
    else if ltb max_advance base
    then err outside_array
    else ok (
        some (record {
          written = take (max_advance - base) o.written;
          room = o.room + (ptr - max_advance);
        }))

unfoldable pub limit_result : ℕ → ℕ → Result Sink → Result Sink
unfolding limited
limit_result base max_advance (err e) = err e
limit_result base max_advance (ok to) = limited base max_advance to

-- The pushes behind the loop: the text without its terminating zero.
unfoldable pub subst_end : Bytes → Sink → Result Bytes
unfolding push_blob
subst_end fmt to = elim (push_blob (push_blob to fmt) (0 ∷ [])) [
  | none ↦ err buffer_size
  | some o ↦ ok (take (length o.written - 1) o.written)
]

module _ (res : Bytes → Sink → Result Sink) (base : ℕ) where
  -- One variable, with the limit of its length if it has one.
  unfoldable pub subst_key : Bytes → Buffer → Result Sink
  unfolding limit_result pull_uint blob_split
  subst_key key o = elim (blob_split key (codes ":")) [
    | none ↦ limit_result base ((base + length o.written + o.room) % 2 ^ 64) (res key (some o))
    | some (name, len) ↦
        let (n, left) = pull_uint len 10 in
        if length left == 0
        then limit_result base ((base + length o.written + n) % 2 ^ 64) (res name (some o))
        else err format_invalid
  ]

  -- The loop, by rounds; each takes the two bytes of "${" at least.
  unfoldable pub subst_loop : ℕ → Bytes → Sink → Option (Result Bytes)
  unfolding subst_key subst_end blob_split push_blob
  subst_loop zero fmt to = none
  subst_loop (suc fuel) fmt to = elim (blob_split fmt (codes "${")) [
    | none ↦ some (subst_end fmt to)
    | some (prefix, key) ↦ elim (push_blob to prefix) [
      | none ↦ some (err buffer_size)
      | some o ↦ elim (blob_split key (codes "}")) [
        | none ↦ some (err format_invalid)
        | some (name, rest) ↦ elim (subst_key name o) [
          | err e ↦ some (err e)
          | ok to' ↦ subst_loop fuel rest to'
        ]
      ]
    ]
  ]

  -- `apk_blob_subst` into an array of `size` bytes at the address `base`.
  unfoldable pub blob_subst : ℕ → Bytes → Option (Result Bytes)
  unfolding subst_loop
  blob_subst size fmt = subst_loop (length fmt + 1) fmt (buffer size)
