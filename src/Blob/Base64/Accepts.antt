-- ===== src/Blob/Base64/Accepts.antt =====
-- `apk_blob_pull_base64` stays inside its blob, whatever the blob holds.
use alpine_linux_mac_os.Base.{
  ℕ, zero, suc, ◌+◌, ◌*◌, ◌/◌, ◌%◌, ◌≤◌, some, none, [], ◌∷◌, Bytes, length, ◌≢◌, arith,
}
use alpine_linux_mac_os.Blob.{Blob}
use alpine_linux_mac_os.Blob.Pull.{overrun}
use alpine_linux_mac_os.Blob.Base64.{pull_b64_tail, b64_loop, pull_base64}

tail-ne-overrun : (len : ℕ) (b done : Bytes) → 4 ≤ length b → pull_b64_tail len b done ≢ overrun
unfolding pull_b64_tail
tail-ne-overrun len [] done h = absurd (omega arith)
tail-ne-overrun len (_ ∷ []) done h = absurd (omega arith)
tail-ne-overrun len (_ ∷ _ ∷ []) done h = absurd (omega arith)
tail-ne-overrun len (_ ∷ _ ∷ _ ∷ []) done h = absurd (omega arith)
tail-ne-overrun len (c0 ∷ c1 ∷ c2 ∷ c3 ∷ b) done h = ground arith

loop-ne-overrun :
    (n len : ℕ) (b : Bytes) (r : ℕ) (done : Bytes)
    → n * 4 + (len + 2) / 3 * 4 ≤ length b
    → b64_loop n len b r done ≢ overrun
unfolding b64_loop
loop-ne-overrun zero len b r done h = ground (arith, tail-ne-overrun len b done)
loop-ne-overrun (suc n) len [] r done h = absurd (omega arith)
loop-ne-overrun (suc n) len (_ ∷ []) r done h = absurd (omega arith)
loop-ne-overrun (suc n) len (_ ∷ _ ∷ []) r done h = absurd (omega arith)
loop-ne-overrun (suc n) len (_ ∷ _ ∷ _ ∷ []) r done h = absurd (omega arith)
loop-ne-overrun (suc n) len (c0 ∷ c1 ∷ c2 ∷ c3 ∷ b) r done h =
    loop-ne-overrun n len b _ _ (omega arith)

-- For every blob and every size of the target, `apk_blob_pull_base64` reads no byte behind the
-- blob's end.
pub pull_base64-ne-overrun : (b : Blob) (n : ℕ) → pull_base64 b n ≢ overrun
unfolding pull_base64
pull_base64-ne-overrun none n = ground arith
pull_base64-ne-overrun (some b) n = ground (arith, loop-ne-overrun (n / 3) (n % 3) b 0 [])
