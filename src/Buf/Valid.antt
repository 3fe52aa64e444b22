-- ===== src/Buf/Valid.antt =====
-- The invariant of a buffer, and what is assumed of `realloc`.
use spe.Base.{ℕ, ◌+◌, ◌≤◌, ◌<◌, ◌^◌, ◌≡◌, ◌⊎◌, Option, none, some, List, length, take, get_elem?}
use spe.Buf.{Buf}

-- `_size` is the size of the block; the content and the byte behind it lie in the block, unless
-- the buffer has no block yet; a content that is not empty is followed by NUL.
pub record IsValid (b : Buf) : Type 0 where
  pub block : length b.mem ≡ b.size
  pub small : b.size < 2 ^ 32
  pub room : ((b.size ≡ 0) × (b.off ≡ 0) × (b.len ≡ 0)) ⊎ (b.off + b.len < b.size)
  pub ended : (b.len ≡ 0) ⊎ (get_elem? b.mem (b.off + b.len) ≡ some 0)

-- The documented behaviour of `realloc`: if it does not fail, the block has the size asked for and
-- keeps its first bytes.
abbrev pub IsRealloc : (List ℕ → ℕ → Option (List ℕ)) → Type 0
IsRealloc realloc =
    (m : List ℕ) (n : ℕ) (m' : List ℕ)
    → realloc m n ≡ some m'
    → (length m' ≡ n) × ((k : ℕ) → k ≤ length m → k ≤ n → take k m' ≡ take k m)

-- Some request for a block, not an empty one, is refused.
abbrev pub Refuses : (List ℕ → ℕ → Option (List ℕ)) → Type 0
Refuses realloc = (m : List ℕ) × (n : ℕ) × (0 < n) × (realloc m n ≡ none)

-- The content is followed by NUL, so that `data` is a C string.
abbrev pub IsEnded : Buf → Type 0
IsEnded b = get_elem? b.mem (b.off + b.len) ≡ some 0

-- No request for a block is refused, unless it is empty.
abbrev pub IsTotal : (List ℕ → ℕ → Option (List ℕ)) → Type 0
IsTotal realloc = (m : List ℕ) (n : ℕ) → 0 < n → (m' : List ℕ) × (realloc m n ≡ some m')
