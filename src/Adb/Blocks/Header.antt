-- ===== src/Adb/Blocks/Header.antt =====
-- The headers of blocks that are written and read again.
use alpine_linux_mac_os.Base.{
  ℕ, zero, suc, ◌+◌, ◌^◌, ◌≤◌, ◌<◌, true, false, Bool-cases, List, [], ◌∷◌, ◌++◌, Bytes, length,
  length-append, take, drop, replicate, append_assoc, take-append_self, ◌≡◌, ◌⊎◌, refl, sym, subst,
  ap, ◌∙◌, inl, inr, arith,
}
use alpine_linux_mac_os.Adb.Blocks.{
  Block, block_init, is_ext, block_type, rawsize, hdrsize, block_size, block_length, block_padding,
  block_at, header_bytes,
}
use alpine_linux_mac_os.Adb.{le_bytes, le_value}
use alpine_linux_mac_os.Adb.Layout.{length-le_bytes, le_value-le32, le_value-le64}

-- Types that a header can hold beside any length, and lengths whose block is shorter than 2 ^ 64.
abbrev pub Writable : ℕ → ℕ → Type 0
Writable type n = (type < 3) × (n + 24 < 2 ^ 64)

pub block_init-type : (type n : ℕ) → Writable type n → block_type (block_init type n) ≡ type
unfolding block_init block_type is_ext
block_init-type type n h = ground arith

pub block_init-rawsize :
    (type n : ℕ) → Writable type n → rawsize (block_init type n) ≡ n + hdrsize (block_init type n)
unfolding block_init rawsize hdrsize is_ext
block_init-rawsize type n h = ground arith

pub hdrsize_cases : (b : Block) → (hdrsize b ≡ 4) ⊎ (hdrsize b ≡ 16)
unfolding hdrsize
hdrsize_cases b = ground arith

pub block_init-length : (type n : ℕ) → Writable type n → block_length (block_init type n) ≡ n
unfolding block_length
block_init-length type n h =
    rw (block_init-rawsize type n h)
      (elim (hdrsize_cases (block_init type n)) [ inl e ↦ omega arith | inr e ↦ omega arith ])

-- Where the size does not wrap around, a block with its padding ends at a multiple of 8.
pub size-padding :
    (b : Block)
    → rawsize b + 8 < 2 ^ 64
    → (rawsize b + block_padding b ≡ block_size b) × (block_padding b < 8)
unfolding block_size block_padding
size-padding b h = (omega arith, omega arith)

pub length-header_bytes : (b : Block) → length (header_bytes b) ≡ hdrsize b
unfolding header_bytes hdrsize le_bytes
length-header_bytes b = elim (Bool-cases (is_ext b)) [ inl e ↦ rw e refl | inr e ↦ rw e refl ]

-- A header that can be written: its fields have the width of the structure's.
pub record IsHeader (b : Block) : Type 0 where
  pub type_size : b.type_size < 2 ^ 32
  pub x_size : b.x_size < 2 ^ 64
  pub short : is_ext b ≡ false → b.x_size ≡ 0

pub block_init-IsHeader : (type n : ℕ) → Writable type n → IsHeader (block_init type n)
unfolding block_init is_ext
block_init-IsHeader type n h = record {
  type_size = ground arith;
  x_size = ground arith;
  short = λ e. ground arith;
}

pub drop-append_past :
    {A : Type 0} (pre l : List A) (n k : ℕ) → n ≡ length pre + k → drop n (pre ++ l) ≡ drop k l
drop-append_past [] l n k e = ap (λ j. drop j l) (omega arith)
drop-append_past (x ∷ pre) l zero k e = absurd (omega arith)
drop-append_past (x ∷ pre) l (suc n) k e = drop-append_past pre l n k (omega arith)

pub drop-append_here : {A : Type 0} (pre l : List A) → drop (length pre) (pre ++ l) ≡ l
drop-append_here pre l = drop-append_past pre l (length pre) 0 (omega arith)

block_read_short :
    (m : Bytes) (pos t : ℕ)
    → le_value (take 4 (drop pos m)) ≡ t
    → is_ext (record { type_size = t; x_size = 0 }) ≡ false
    → block_at m pos ≡ record { type_size = t; x_size = 0 }
unfolding block_at
block_read_short m pos t h e = rw (h, e) refl

block_read_long :
    (m : Bytes) (pos t x : ℕ)
    → le_value (take 4 (drop pos m)) ≡ t
    → le_value (take 8 (drop (pos + 8) m)) ≡ x
    → is_ext (record { type_size = t; x_size = 0 }) ≡ true
    → block_at m pos ≡ record { type_size = t; x_size = x }
unfolding block_at
block_read_long m pos t x h k e = rw (h, e, k) refl

pub take-append_exact :
    {A : Type 0} (xs ys : List A) (k : ℕ) → length xs ≡ k → take k (xs ++ ys) ≡ xs
take-append_exact xs ys k e = subst (λ j. take j (xs ++ ys) ≡ xs) e (take-append_self xs ys)

pub le_value-word :
    (pre rest m : Bytes) (k pos n : ℕ)
    → le_value (le_bytes k n) ≡ n
    → pos ≡ length pre
    → m ≡ pre ++ (le_bytes k n ++ rest)
    → le_value (take k (drop pos m)) ≡ n
le_value-word pre rest m k pos n h e q =
    rw
      (
        e,
        q,
        drop-append_here pre (le_bytes k n ++ rest),
        take-append_exact (le_bytes k n) rest k (length-le_bytes k n),
      )
      h

-- What is read behind any memory is the header that was written there.
pub block_at-header_bytes :
    (b : Block) (pre rest : Bytes)
    → IsHeader b
    → block_at (pre ++ (header_bytes b ++ rest)) (length pre) ≡ b
unfolding header_bytes is_ext le_bytes
block_at-header_bytes b pre rest h =
    let type_size = le_value-le32 b.type_size h.type_size in
    elim (Bool-cases (is_ext b)) [
      | inl e ↦ rw e (
          block_read_long
            (pre ++ ((le_bytes 4 b.type_size ++ replicate 4 0 ++ le_bytes 8 b.x_size) ++ rest))
            (length pre) b.type_size b.x_size
            (le_value-word pre (replicate 4 0 ++ le_bytes 8 b.x_size ++ rest) _ 4 (length pre)
              b.type_size type_size refl refl)
            (le_value-word (pre ++ (le_bytes 4 b.type_size ++ replicate 4 0)) rest _ 8
              (length pre + 8) b.x_size (le_value-le64 b.x_size h.x_size)
              (sym (length-append pre (le_bytes 4 b.type_size ++ replicate 4 0)))
              (sym (
                append_assoc pre (le_bytes 4 b.type_size ++ replicate 4 0)
                  (le_bytes 8 b.x_size ++ rest))))
            e)
      | inr e ↦ rw e (
          block_read_short (pre ++ (le_bytes 4 b.type_size ++ rest)) (length pre) b.type_size
            (le_value-word pre rest _ 4 (length pre) b.type_size type_size refl refl) e
          ∙ ap (λ x. record { type_size = b.type_size; x_size = x }) (sym (h.short e)))
    ]

pub block_init-bytes : (type n : ℕ) → Writable type n → 1 ≤ block_size (block_init type n)
unfolding block_size
block_init-bytes type n w =
    let raw = block_init-rawsize type n w in
    let sizes = hdrsize_cases (block_init type n) in omega arith
