-- ===== src/Blob/Search.antt =====
-- `apk_blob_contains`, `apk_blob_split`, `apk_blob_rsplit`, `apk_blob_trim_end` and
-- `apk_blob_tokenize` of blob.c and apk_blob.h.
pub mod Splits
use alpine_linux_mac_os.Base.{
  ℕ, zero, suc, ◌+◌, ◌-◌, Option, none, some, Bool, true, false, [], ◌∷◌, ◌++◌, List, Bytes, length,
  take, drop, ◌==◌, if◌then◌else◌,
}
use mathlib.Core.Option
use alpine_linux_mac_os.Blob.{Blob, bytes}
use alpine_linux_mac_os.Blob.Order.{blob_starts_with}

-- The offset of the first place where the needle stands, by `memmem`; `none` for -1.
unfoldable pub blob_contains : Bytes → Bytes → Option ℕ
unfolding blob_starts_with
blob_contains [] needle = if blob_starts_with [] needle then some 0 else none
blob_contains (c ∷ b) needle =
    let later = Option.map suc (blob_contains b needle) in
    if blob_starts_with (c ∷ b) needle then some 0 else later

-- The parts before and behind the first separator.
unfoldable pub blob_split : Bytes → Bytes → Option (Bytes × Bytes)
blob_split b split =
    Option.map (λ offs. (take offs b, drop (offs + length split) b)) (blob_contains b split)

-- memrchr(b, c, len), as an offset.
unfoldable pub find_last : Bytes → ℕ → Option ℕ
find_last [] c = none
find_last (x ∷ b) c = elim (find_last b c) [
  | some i ↦ some (suc i)
  | none ↦ if x == c then some 0 else none
]

unfoldable pub blob_rsplit : Bytes → ℕ → Option (Bytes × Bytes)
unfolding find_last
blob_rsplit b split = Option.map (λ offs. (take offs b, drop (offs + 1) b)) (find_last b split)

-- One round of the loop in `apk_blob_tokenize`: the token, and what is left of the blob.
unfoldable pub next_token : Bytes → Bytes → Bytes × Blob
unfolding blob_split
next_token b token = elim (blob_split b token) [
  | none ↦ (b, none)
  | some (iter, rest) ↦ (iter, some rest)
]

-- `apk_blob_tokenize`: 0 is `some none`. The outer `none` says that the rounds ran out.
unfoldable pub blob_tokenize : ℕ → Blob → Bytes → Option (Option (Bytes × Blob))
unfolding next_token
blob_tokenize zero b token = none
blob_tokenize (suc fuel) none token = some none
blob_tokenize (suc fuel) (some b) token =
    let iter = (next_token b token).0 in
    let rest = (next_token b token).1 in
    let again = blob_tokenize fuel rest token in
    if length iter == 0 then again else some (some (iter, rest))

-- `apk_blob_trim_end`.
unfoldable pub blob_trim_end : Bytes → ℕ → Bytes
blob_trim_end [] ch = []
blob_trim_end (c ∷ b) ch = elim (blob_trim_end b ch) [
  | [] ↦ if c == ch then [] else c ∷ []
  | d ∷ r ↦ c ∷ d ∷ r
]
