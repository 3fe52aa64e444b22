-- ===== src/Base/Text.antt =====
-- C strings as lists of bytes, and what the source uses of <string.h>.
use Prim.Native.Nat.{ℕ, suc, compare, Ordering}
use mathlib.Core.Bool.{Bool, true, false, ◌&&◌, ◌||◌}
use mathlib.Core.Option
use mathlib.Core.Option.{Option, none, some}
use mathlib.Core.List.{List, [], ◌∷◌}
use spe.Base.Tests.{◌==◌, if◌then◌else◌}

-- The C string at the start of a block: its bytes up to the first NUL. `none` is a block without
-- NUL, of which a reader runs off the end.
unfoldable pub c_string : List ℕ → Option (List ℕ)
c_string [] = none
c_string (c ∷ cs) = if c == 0 then some [] else Option.map (◌∷◌ c) (c_string cs)

unfoldable pub is_prefix : List ℕ → List ℕ → Bool
is_prefix [] s = true
is_prefix (k ∷ ks) [] = false
is_prefix (k ∷ ks) (c ∷ cs) = k == c && is_prefix ks cs

-- strstr, as an index
unfoldable pub strstr : List ℕ → List ℕ → Option ℕ
unfolding is_prefix
strstr [] key = if is_prefix key [] then some 0 else none
strstr (c ∷ cs) key = if is_prefix key (c ∷ cs) then some 0 else Option.map suc (strstr cs key)

-- strchr (set, c) != NULL: the terminator of `set` counts as one of its characters.
unfoldable pub in_set : List ℕ → ℕ → Bool
in_set [] c = c == 0
in_set (s ∷ ss) c = c == s || in_set ss c

-- strcmp (a, b) == 0
unfoldable pub str_eq : List ℕ → List ℕ → Bool
str_eq [] [] = true
str_eq [] (b ∷ bs) = false
str_eq (a ∷ xs) [] = false
str_eq (a ∷ xs) (b ∷ bs) = a == b && str_eq xs bs

-- The sign of memcmp over blocks of one length.
unfoldable pub memcmp : List ℕ → List ℕ → Ordering
memcmp [] ys = Ordering.eq
memcmp (x ∷ xs) [] = Ordering.eq
memcmp (x ∷ xs) (y ∷ ys) = elim (compare x y) [
  | Ordering.lt ↦ Ordering.lt
  | Ordering.gt ↦ Ordering.gt
  | _ ↦ memcmp xs ys
]
