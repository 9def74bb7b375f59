-- ===== src/Adb/Blocks/Enumerate.antt =====
-- The blocks that the loop over a memory visits.
use alpine_linux_mac_os.Base.{
  ℕ, ◌+◌, ◌-◌, ◌^◌, ◌≤◌, ◌<◌, true, false, Bool, ◌++◌, append_assoc, Bytes, length, length-append,
  take-append_self, length-take, length-drop, length-replicate, drop, replicate, ◌==◌,
  if◌then◌else◌, ◌≡◌, ◌↔◌, refl, sym, subst, ◌∙◌, arith,
}
use alpine_linux_mac_os.Adb.Blocks.{
  Block, finished, invalid, valid, block_init, rawsize, hdrsize, block_size, block_length,
  block_padding, block_at, header_bytes, fits, block_validate, block_blob, c_block,
}
use alpine_linux_mac_os.Adb.Blocks.Header.{
  Writable, block_init-rawsize, block_init-length, block_init-IsHeader, hdrsize_cases, size-padding,
  length-header_bytes, block_at-header_bytes, drop-append_past, drop-append_here,
}

pub chosen :
    (f g : Bool) (x blk : Block)
    → (if f then finished else if g then valid x else invalid) ≡ valid blk
    → (g ≡ true) × (x ≡ blk)
chosen true g x blk e = absurd cc
chosen false true x blk e = (refl, cc)
chosen false false x blk e = absurd cc

fits_iff :
    (len : ℕ) (blk : Block)
    → (fits len blk ≡ true)
      ↔ ((4 ≤ len) × (hdrsize blk ≤ len) × (hdrsize blk ≤ rawsize blk) × (block_size blk ≤ len))
unfolding fits
fits_iff len blk = ground arith

-- A block that `adb_block_validate` accepts, of a size below 2 ^ 64 - 8, ends within the memory;
-- it takes 8 bytes at least, its header and payload fill its raw size, which is within the
-- rounded one, and all of its payload is in the memory.
pub block_validate-valid :
    (b : Bytes) (pos : ℕ) (blk : Block)
    → pos ≤ length b
    → rawsize blk + 8 < 2 ^ 64
    → block_validate b pos ≡ valid blk
    → (pos + block_size blk ≤ length b)
      × (8 ≤ block_size blk)
      × (hdrsize blk + block_length blk ≡ rawsize blk)
      × (rawsize blk ≤ block_size blk)
      × (length (block_blob b pos blk) ≡ block_length blk)
unfolding block_validate block_size block_length block_blob
block_validate-valid b pos blk h w e =
    let (f, same) = chosen _ _ _ blk e in
    let (four, hdr, raw, size) =
      (fits_iff (length b - pos) blk).0 (subst (λ x. fits (length b - pos) x ≡ true) same f) in
    let sizes = hdrsize_cases blk in
    let rest = length-drop (pos + hdrsize blk) b in
    (
      omega arith,
      omega arith,
      omega arith,
      omega arith,
      length-take (block_length blk) (drop (pos + hdrsize blk) b) ∙ omega arith,
    )

pub c_block_size :
    (type : ℕ) (p : Bytes)
    → Writable type (length p)
    → length (c_block type p) ≡ block_size (block_init type (length p))
unfolding c_block
c_block_size type p w =
    let blk = block_init type (length p) in
    let raw = block_init-rawsize type (length p) w in
    let sizes = hdrsize_cases blk in
    let (whole, short) = size-padding blk (omega arith) in
    rw
      (
        length-append (header_bytes blk ++ p) (replicate (block_padding blk) 0),
        length-append (header_bytes blk) p,
        length-replicate {A = ℕ} (block_padding blk) 0,
        length-header_bytes blk,
      )
      (omega arith)

c_block_split :
    (type : ℕ) (p rest : Bytes)
    → c_block type p ++ rest
      ≡ header_bytes (block_init type (length p))
        ++ (p ++ (replicate (block_padding (block_init type (length p))) 0 ++ rest))
unfolding c_block
c_block_split type p rest =
    let blk = block_init type (length p) in
    append_assoc (header_bytes blk ++ p) (replicate (block_padding blk) 0) rest
    ∙ append_assoc (header_bytes blk) p (replicate (block_padding blk) 0 ++ rest)

block_at-c_block :
    (type : ℕ) (p pre rest : Bytes)
    → Writable type (length p)
    → block_at (pre ++ (c_block type p ++ rest)) (length pre) ≡ block_init type (length p)
block_at-c_block type p pre rest w = rw (c_block_split type p rest) (
    block_at-header_bytes (block_init type (length p)) pre _
      (block_init-IsHeader type (length p) w))

-- A block behind any memory is found there as it was written, with its payload.
pub block_validate-c_block :
    (type : ℕ) (p pre rest : Bytes)
    → Writable type (length p)
    → (block_validate (pre ++ (c_block type p ++ rest)) (length pre)
        ≡ valid (block_init type (length p)))
      × (block_blob (pre ++ (c_block type p ++ rest)) (length pre) (block_init type (length p)) ≡ p)
unfolding block_validate block_blob
block_validate-c_block type p pre rest w =
    let blk = block_init type (length p) in
    let raw = block_init-rawsize type (length p) w in
    let sizes = hdrsize_cases blk in
    let (whole, short) = size-padding blk (omega arith) in
    let all = length-append pre (c_block type p ++ rest) in
    let here = length-append (c_block type p) rest in
    let size = c_block_size type p w in
    let fit =
      (fits_iff (length (pre ++ (c_block type p ++ rest)) - length pre) blk).1
        (omega arith, omega arith, omega arith, omega arith) in
    let more : (length pre == length (pre ++ (c_block type p ++ rest))) ≡ false = ground arith in
    let payload = p ++ (replicate (block_padding blk) 0 ++ rest) in
    (
      rw (block_at-c_block type p pre rest w, fit, more) refl,
      rw
          (
            c_block_split type p rest,
            block_init-length type (length p) w,
            drop-append_past pre (header_bytes blk ++ payload) (length pre + hdrsize blk)
                (hdrsize blk) refl,
            sym (length-header_bytes blk),
            drop-append_here (header_bytes blk) payload,
          )
          (take-append_self p (replicate (block_padding blk) 0 ++ rest)),
    )
