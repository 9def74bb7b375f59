-- ===== src/Hash/Murmur.antt =====
-- `murmur3_32` and `apk_blob_hash` of apk-tools/src/blob.c, on 32-bit words.
use alpine_linux_mac_os.Base.{
  ℕ, ◌+◌, ◌-◌, ◌*◌, ◌/◌, ◌%◌, ◌^◌, bit_or, bit_xor, [], ◌∷◌, Bytes, codes, length, take, ◌≡◌, refl,
}

abbrev word : ℕ → ℕ
word n = n % 2 ^ 32

-- `rotl32`, for an r between 1 and 31.
unfoldable rotl32 : ℕ → ℕ → ℕ
rotl32 x r = bit_or (word (x * 2 ^ r)) (x / 2 ^ (32 - r))

-- A block multiplied, rotated and multiplied.
scramble : ℕ → ℕ
unfolding rotl32
scramble k = word (rotl32 (word (k * 0xcc9e2d51)) 15 * 0x1b873593)

-- `apk_unaligned_le32`.
abbrev le32 : ℕ → ℕ → ℕ → ℕ → ℕ
le32 c0 c1 c2 c3 = c0 + c1 * 2 ^ 8 + c2 * 2 ^ 16 + c3 * 2 ^ 24

-- The loop over the blocks of 4 bytes, and the bytes behind them.
blocks : Bytes → ℕ → ℕ × Bytes
unfolding scramble rotl32
blocks (c0 ∷ c1 ∷ c2 ∷ c3 ∷ key) h =
    blocks key (word (rotl32 (bit_xor h (scramble (le32 c0 c1 c2 c3))) 13 * 5 + 0xe6546b64))
blocks key h = (h, key)

-- The switch on `len & 3`.
tail : Bytes → ℕ → ℕ
unfolding scramble
tail (c0 ∷ []) h = bit_xor h (scramble c0)
tail (c0 ∷ c1 ∷ []) h = bit_xor h (scramble (bit_xor (c1 * 2 ^ 8) c0))
tail (c0 ∷ c1 ∷ c2 ∷ _) h = bit_xor h (scramble (bit_xor (bit_xor (c2 * 2 ^ 16) (c1 * 2 ^ 8)) c0))
tail [] h = h

finish : ℕ → ℕ
finish h =
    let h1 = word (bit_xor h (h / 2 ^ 16) * 0x85ebca6b) in
    let h2 = word (bit_xor h1 (h1 / 2 ^ 13) * 0xc2b2ae35) in bit_xor h2 (h2 / 2 ^ 16)

unfoldable pub murmur3_32 : Bytes → ℕ → ℕ
unfolding blocks tail finish
murmur3_32 key seed =
    let len = word (length key) in
    let (h, rest) = blocks (take len key) (word seed) in finish (bit_xor (tail rest h) len)

-- `apk_blob_hash`.
unfoldable pub blob_hash : Bytes → ℕ
unfolding murmur3_32
blob_hash b = murmur3_32 b 5381

hash_test : murmur3_32 (codes "test") 0 ≡ 0xba6bd213
unfolding murmur3_32
hash_test = refl

hash_hello : murmur3_32 (codes "Hello, world!") 0 ≡ 0xc0363e43
unfolding murmur3_32
hash_hello = refl
