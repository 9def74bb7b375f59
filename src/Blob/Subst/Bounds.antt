-- ===== src/Blob/Subst/Bounds.antt =====
-- What `apk_blob_subst` writes is within its array, for callbacks that write through the sink and limits
-- that do not wrap around.
use alpine_linux_mac_os.Base.{
  ℕ, zero, suc, ◌+◌, ◌-◌, ◌<◌, Option, some, none, [], ◌∷◌, List, All, false, ◌≤◌, ◌%◌, ◌^◌, Bytes,
  codes, length, ltb, leb, ◌==◌, ◌≡◌, arith, Option-cases, Bool-cases, inl, inr, length-append,
  length-take,
}
use alpine_linux_mac_os.Blob.{Buffer, Sink, buffer}
use alpine_linux_mac_os.Blob.Search.{blob_split}
use alpine_linux_mac_os.Blob.Push.{push_blob}
use alpine_linux_mac_os.Blob.Push.Bounds.{Fits, push_blob-Fits}
use alpine_linux_mac_os.Blob.Pull.{pull_uint}
use alpine_linux_mac_os.Blob.Subst.{
  Error, outside_array, Result, ok, err, limited, limit_result, subst_end, subst_key, subst_loop,
  blob_subst,
}

-- Nothing was left before the array.
abbrev pub IsInside : Error → Type 0
IsInside outside_array = ⊥
IsInside _ = Unit

-- A sink that a callback leaves is within the array.
abbrev pub ResultFits : ℕ → Result Sink → Type 0
ResultFits size (err e) = IsInside e
ResultFits size (ok to) = Fits size to

-- A text leaves room for its terminating zero.
abbrev pub TextFits : ℕ → Option (Result Bytes) → Type 0
TextFits size none = Unit
TextFits size (some (err e)) = IsInside e
TextFits size (some (ok text)) = length text < size

-- The limit that a variable names, 0 where it names none.
unfoldable pub key_limit : Bytes → ℕ
unfolding blob_split pull_uint
key_limit key = elim (blob_split key (codes ":")) [
  | none ↦ 0
  | some (name, len) ↦ (pull_uint len 10).0
]

-- The limits that a format names, by the variables of it.
unfoldable pub limits : ℕ → Bytes → List ℕ
unfolding blob_split key_limit
limits zero fmt = []
limits (suc fuel) fmt = elim (blob_split fmt (codes "${")) [
  | none ↦ []
  | some (prefix, key) ↦ elim (blob_split key (codes "}")) [
    | none ↦ []
    | some (name, rest) ↦ key_limit name ∷ limits fuel rest
  ]
]

limited-Fits :
    (base size m : ℕ) (to : Sink) → Fits size to → base ≤ m → ResultFits size (limited base m to)
unfolding limited
limited-Fits base size m none h k = tt
limited-Fits base size m (some o) h k = elim (Bool-cases (leb (base + length o.written) m)) [
  | inl e ↦ rw (limited, e) h
  | inr e ↦
      let above : ltb m base ≡ false = ground arith in
      let behind : m < base + length o.written = ground arith in
      rw (limited, e, above) (omega (arith, length-take (m - base) o.written))
]

written_one : (to : Sink) (o : Buffer) → push_blob to (0 ∷ []) ≡ some o → 0 < length o.written
unfolding push_blob
written_one none o h = ground arith
written_one (some to) o h = elim (Bool-cases (ltb to.room 1)) [
  | inl e ↦ ground arith
  | inr e ↦ ground (arith, length-append to.written (0 ∷ []))
]

end-Fits :
    (size : ℕ) (fmt : Bytes) (to : Sink) → Fits size to → TextFits size (some (subst_end fmt to))
unfolding subst_end
end-Fits size fmt to h =
    let f = push_blob-Fits size (push_blob to fmt) (0 ∷ []) (push_blob-Fits size to fmt h) in
    elim (Option-cases (push_blob (push_blob to fmt) (0 ∷ []))) [
      | inl e ↦ rw (subst_end, e) tt
      | inr (o, e) ↦
          let g : Fits size (some o) = rw e at f in
          let k = written_one (push_blob to fmt) o e in
          rw (subst_end, e) (omega (arith, length-take (length o.written - 1) o.written))
    ]

-- The limits of a format do not wrap around behind the array.
abbrev pub AllSmall : ℕ → ℕ → List ℕ → Type 0
AllSmall base size = All (λ n. base + size + n < 2 ^ 64)

-- An address that does not wrap around.
no_wrap : (a : ℕ) → a < 2 ^ 64 → a % 2 ^ 64 ≡ a
no_wrap a h = omega arith

module _ (res : Bytes → Sink → Result Sink) (base size : ℕ) (placed : base + size < 2 ^ 64)
    (keeps : (key : Bytes) (to : Sink) → Fits size to → ResultFits size (res key to)) where
  limit-Fits :
      (m : ℕ) (r : Result Sink)
      → ResultFits size r
      → base ≤ m
      → ResultFits size (limit_result base m r)
  unfolding limit_result
  limit-Fits m (err e) h k = h
  limit-Fits m (ok to) h k = limited-Fits base size m to h k

  key-Fits :
      (key : Bytes) (o : Buffer)
      → Fits size (some o)
      → base + size + key_limit key < 2 ^ 64
      → ResultFits size (subst_key res base key o)
  unfolding subst_key key_limit
  key-Fits key o h small = elim (Option-cases (blob_split key (codes ":"))) [
    | inl e ↦
        let max = base + length o.written + o.room in
        let same : max % 2 ^ 64 ≡ max = no_wrap max (omega arith) in
        rw (subst_key, e, same)
          (limit-Fits max (res key (some o)) (keeps key (some o) h) (omega arith))
    | inr ((name, len), e) ↦
        let n = (pull_uint len 10).0 in
        let max = base + length o.written + n in
        let below : base + size + n < 2 ^ 64 = rw (key_limit, e) at small in
        let same : max % 2 ^ 64 ≡ max = no_wrap max (omega arith) in
        elim (Bool-cases (length (pull_uint len 10).1 == 0)) [
          | inl z ↦
              rw (subst_key, e, z, same)
                (limit-Fits max (res name (some o)) (keeps name (some o) h) (omega arith))
          | inr z ↦ rw (subst_key, e, z) tt
        ]
  ]

  next-Fits :
      (fuel : ℕ) (rest : Bytes)
      → ((to : Sink) → Fits size to → TextFits size (subst_loop res base fuel rest to))
      → (r : Result Sink) → ResultFits size r
      → TextFits size (elim r as (λ _. Option (Result Bytes)) [
        | err e ↦ some (err e)
        | ok to ↦ subst_loop res base fuel rest to
      ])
  next-Fits fuel rest h (err e) k = k
  next-Fits fuel rest h (ok to) k = h to k

  loop-Fits :
      (fuel : ℕ) (fmt : Bytes) (to : Sink)
      → AllSmall base size (limits fuel fmt)
      → Fits size to
      → TextFits size (subst_loop res base fuel fmt to)
  unfolding subst_loop limits
  loop-Fits zero fmt to w h = tt
  loop-Fits (suc fuel) fmt to w h = elim (Option-cases (blob_split fmt (codes "${"))) [
    | inl e ↦ rw (subst_loop, e) (end-Fits size fmt to h)
    | inr ((prefix, key), e) ↦ elim (Option-cases (push_blob to prefix)) [
      | inl p ↦ rw (subst_loop, e, p) tt
      | inr (o, p) ↦ elim (Option-cases (blob_split key (codes "}"))) [
        | inl q ↦ rw (subst_loop, e, p, q) tt
        | inr ((name, rest), q) ↦
            let g : Fits size (some o) = rw p at (push_blob-Fits size to prefix h) in
            let small : AllSmall base size (key_limit name ∷ limits fuel rest) =
              rw (limits, e, q) at w in
            rw (subst_loop, e, p, q)
              (next-Fits fuel rest (λ to' k. loop-Fits fuel rest to' small.1 k)
                (subst_key res base name o) (key-Fits name o g small.0))
      ]
    ]
  ]

  -- For an array that lies in the address space, a callback that leaves every sink within the array,
  -- and a format whose limits do not wrap around behind the array: `apk_blob_subst` leaves no pointer
  -- before the array, and a text that it returns leaves room for its terminating zero.
  pub blob_subst-Fits :
      (fmt : Bytes)
      → AllSmall base size (limits (length fmt + 1) fmt)
      → TextFits size (blob_subst res base size fmt)
  unfolding blob_subst
  blob_subst-Fits fmt w = loop-Fits (length fmt + 1) fmt (buffer size) w (omega arith)
