-- ===== src/Buf/Text.antt =====
-- src/spe_buf.c: the operations that look at the content.
pub mod Trim
pub mod Search
pub mod Find
pub mod Compare
pub mod Case
use Prim.Native.Nat.{Ordering}
use spe.Base.{
  ℕ, zero, suc, ◌+◌, ◌-◌, ◌≡◌, refl, Bool, true, false, Option, none, some, List, [], ◌∷◌, ltb, leb,
  ◌==◌, if◌then◌else◌, ◌>>=◌, ◌&&◌, length, take, drop, get_elem?, set, read_at, write_at,
}
use spe.Base.Text.{c_string, strstr, in_set, memcmp}
use spe.Buf.{Buf, terminate, lconsume}

-- The index of `key`, or `none` for -1. The C string at `data` is searched, not the `len` bytes.
unfoldable pub search : Buf → List ℕ → Option (Option ℕ)
search b key =
    if b.len == 0 then some none else (c_string (drop b.off b.mem) >>= λ s. some (strstr s key))

-- `for (pos = 0; pos < len; pos++) if (!strchr(token, data[pos])) break;` over the content
unfoldable pub lstrim_pos : List ℕ → List ℕ → ℕ
lstrim_pos token [] = 0
lstrim_pos token (c ∷ cs) = if in_set token c then suc (lstrim_pos token cs) else 0

unfoldable pub lstrim : Buf → List ℕ → Option Buf
unfolding lstrim_pos
lstrim b token = do
  xs ← read_at b.mem b.off b.len
  let pos = lstrim_pos token xs
  if pos == 0 then some b else lconsume b pos

-- The loop of `spe_buf_rstrim` with `n` bytes left, `pos == n - 1`; it gives `pos + 1`.
unfoldable pub rstrim_len : List ℕ → List ℕ → ℕ → ℕ
rstrim_len token xs zero = zero
rstrim_len token xs (suc n) = elim (get_elem? xs n) [
  | none ↦ suc n
  | some c ↦ if in_set token c then rstrim_len token xs n else suc n
]

unfoldable pub rstrim : Buf → List ℕ → Option Buf
unfolding rstrim_len
rstrim b token = do
  xs ← read_at b.mem b.off b.len
  terminate (record b { len = rstrim_len token xs b.len })

unfoldable pub strim : Buf → List ℕ → Option Buf
unfolding lstrim rstrim
strim b token = lstrim b token >>= λ b'. rstrim b' token

-- What follows memcmp in `spe_buf_cmp`.
pub cmp_lengths : Ordering → ℕ → ℕ → Ordering
cmp_lengths Ordering.lt n m = Ordering.lt
cmp_lengths Ordering.gt n m = Ordering.gt
cmp_lengths Ordering.eq n m =
    if n == m then Ordering.eq else if ltb m n then Ordering.gt else Ordering.lt

-- The sign of the result, over the bytes that are compared and the two lengths.
pub cmp : Buf → Buf → Option Ordering
unfolding cmp_lengths
cmp b1 b2 =
    let minlen : ℕ = if ltb b2.len b1.len then b2.len else b1.len in
    do
      xs ← read_at b1.mem b1.off minlen
      ys ← read_at b2.mem b2.off minlen
      some (cmp_lengths (memcmp xs ys) b1.len b2.len)

pub lower_char : ℕ → ℕ
lower_char c = if leb b'A' c && leb c b'Z' then c + 32 else c

pub upper_char : ℕ → ℕ
upper_char c = if leb b'a' c && leb c b'z' then c - 32 else c

-- `for (i = 0; i < len; i++)` of the two case loops, with `n` rounds left; `i` counts from `_start`.
pub each_byte : (ℕ → ℕ) → List ℕ → ℕ → ℕ → Option (List ℕ)
each_byte f m i zero = some m
each_byte f m i (suc n) = get_elem? m i >>= λ c. each_byte f (set m i (f c)) (suc i) n

pub to_lower : Buf → Option Buf
unfolding each_byte lower_char
to_lower b = each_byte lower_char b.mem b.off b.len >>= λ m. some (record b { mem = m })

pub to_upper : Buf → Option Buf
unfolding each_byte upper_char
to_upper b = each_byte upper_char b.mem b.off b.len >>= λ m. some (record b { mem = m })
