-- ===== src/Map/Hash.antt =====
-- src/spe_map.c, `genhashvalue`: MurmurHash2 with a fixed seed, on 32-bit words.
use spe.Base.{ℕ, zero, suc, ◌+◌, ◌*◌, ◌/◌, ◌%◌, ◌^◌, List, [], ◌∷◌, length}
use spe.Base.Words.{mul_u32}

-- The exclusive or of the low `n` bits.
pub xor_bits : ℕ → ℕ → ℕ → ℕ
xor_bits zero a b = 0
xor_bits (suc n) a b = (a + b) % 2 + 2 * xor_bits n (a / 2) (b / 2)

abbrev pub xor32 : ℕ → ℕ → ℕ
xor32 = xor_bits 32

abbrev pub mult : ℕ
mult = 1540483477

-- Four bytes as the word that a little-endian machine reads.
pub mix_word : ℕ → ℕ → ℕ → ℕ → ℕ → ℕ
unfolding xor_bits
mix_word h a b c d =
    let k : ℕ = mul_u32 (a + 256 * b + 65536 * c + 16777216 * d) mult in
    let k' : ℕ = mul_u32 (xor32 k (k / 2 ^ 24)) mult in xor32 (mul_u32 h mult) k'

-- The loop over words, and the switch for the bytes that are left.
pub mix : ℕ → List ℕ → ℕ
unfolding mix_word
mix h (a ∷ b ∷ c ∷ d ∷ rest) = mix (mix_word h a b c d) rest
mix h (a ∷ b ∷ c ∷ []) = mul_u32 (xor32 (xor32 (xor32 h (c * 65536)) (b * 256)) a) mult
mix h (a ∷ b ∷ []) = mul_u32 (xor32 (xor32 h (b * 256)) a) mult
mix h (a ∷ []) = mul_u32 (xor32 h a) mult
mix h [] = h

unfoldable pub hash_value : List ℕ → ℕ
unfolding mix
hash_value key =
    let h : ℕ = mix (xor32 5381 (length key)) key in
    let h' : ℕ = mul_u32 (xor32 h (h / 2 ^ 13)) mult in xor32 h' (h' / 2 ^ 15)
