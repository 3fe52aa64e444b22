-- ===== src/Buf/Split.antt =====
-- src/spe_buf.c and src/spe_buf.h: `spe_bufs_t`, a growing array of buffers, and the split of a buffer.
pub mod Cells
pub mod Rest
pub mod Pieces
use spe.Base.{
  ℕ, zero, suc, ◌+◌, Bool, true, false, Option, none, some, List, [], ◌∷◌, ◌++◌, leb, if◌then◌else◌,
  ◌>>=◌, ◌==◌, length, take, drop, replicate, get_elem?, set, read_at,
}
use spe.Base.Words.{add_u32, sub_u32}
use spe.Base.Text.{c_string, strstr}
use spe.Buf.{Buf, copy}
use spe.Buf

-- `spe_bufs_t`; `elements` is its `data`, and an element that is `none` is NULL.
pub record Bufs : Type 0 where
  pub elements : List (Option Buf)
  pub len : ℕ
  pub size : ℕ

-- `spe_bufs_create`, as calloc leaves it
abbrev pub bufs_create : Bufs
bufs_create = record { elements = []; len = 0; size = 0 }

-- `spe_bufs_clean`
abbrev pub bufs_clean : Bufs → Bufs
bufs_clean bs = record bs { len = 0 }

-- The growth in `spe_bufs_append`; `grows` tells whether the array of pointers is allocated. The new
-- pointers are NULL.
unfoldable pub bufs_expand : Bool → Bufs → Bool × Bufs
bufs_expand false bs = if bs.len == bs.size then (false, bs) else (true, bs)
bufs_expand true bs =
    let size' : ℕ = add_u32 16 bs.size in
    if bs.len == bs.size
    then (
      true,
      record bs { elements = take size' (bs.elements ++ replicate 16 none); size = size' },
    )
    else (true, bs)

module _ (realloc : List ℕ → ℕ → Option (List ℕ)) where
  -- The copy into the element at `len`, the result of which is dropped.
  unfoldable pub bufs_fill : Bufs → List ℕ → Buf → Option (Bool × Bufs)
  bufs_fill bs src b = copy realloc b src >>= λ r.
      some
        (true, record bs { elements = set bs.elements bs.len (some r.1); len = add_u32 bs.len 1 })

  -- The element is made if it is NULL; `calloc` tells whether that succeeds.
  unfoldable pub bufs_at : Bool → Bufs → List ℕ → Option Buf → Option (Bool × Bufs)
  unfolding bufs_fill
  bufs_at calloc bs src (some b) = bufs_fill bs src b
  bufs_at true bs src none = bufs_fill bs src Buf.create
  bufs_at false bs src none = some (false, bs)

  unfoldable pub bufs_append_at : Bool → List ℕ → Bool × Bufs → Option (Bool × Bufs)
  unfolding bufs_at
  bufs_append_at calloc src (false, bs) = some (false, bs)
  bufs_append_at calloc src (true, bs) = get_elem? bs.elements bs.len >>= bufs_at calloc bs src

  -- `spe_bufs_append`: the outer `none` is an access outside the array.
  unfoldable pub bufs_append : Bool → Bool → Bufs → List ℕ → Option (Bool × Bufs)
  unfolding bufs_expand bufs_append_at
  bufs_append grows calloc bs src = bufs_append_at calloc src (bufs_expand grows bs)

  -- `spe_buf_split`: whether each allocation succeeds is told by the number of elements before it.
  module _ (grows calloc : ℕ → Bool) where
    -- spe_bufs_append, with its result dropped
    unfoldable pub add_piece : Bufs → List ℕ → Option Bufs
    unfolding bufs_append
    add_piece bs src = bufs_append (grows bs.len) (calloc bs.len) bs src >>= λ r. some (r.1)

    -- What follows the loop.
    unfoldable pub split_end : Buf → ℕ → Bufs → Option Bufs
    unfolding add_piece
    split_end b start bs =
        if b.len == start
        then some bs
        else (read_at b.mem (b.off + start) (sub_u32 b.len start) >>= add_piece bs)

    -- A token was found `i` bytes behind `start`.
    unfoldable pub split_found : Buf → ℕ → ℕ → Bufs → Option Bufs
    unfolding add_piece
    split_found b start i bs =
        if i == 0 then some bs else (read_at b.mem (b.off + start) i >>= add_piece bs)

    unfoldable pub split_at_point :
        (ℕ → Bufs → Option (Option Bufs))
        → Buf
        → List ℕ
        → ℕ
        → Bufs
        → Option ℕ
        → Option (Option Bufs)
    unfolding split_end split_found
    split_at_point again b token start bs none = split_end b start bs >>= λ r. some (some r)
    split_at_point again b token start bs (some i) =
        split_found b start i bs >>= again (start + i + length token)

    -- The loop, on fuel; `none` inside: the fuel is used up.
    unfoldable pub split_from : ℕ → Buf → List ℕ → ℕ → Bufs → Option (Option Bufs)
    unfolding split_at_point
    split_from zero b token start bs = some none
    split_from (suc fuel) b token start bs =
        if leb b.len start
        then (split_end b start bs >>= λ r. some (some r))
        else (c_string (drop (b.off + start) b.mem) >>= λ s.
            split_at_point (λ start' bs'. split_from fuel b token start' bs') b token start bs
              (strstr s token))

    -- `spe_buf_split`, when `spe_bufs_create` succeeds; each round goes on by the token at least.
    unfoldable pub buf_split : Buf → List ℕ → Option (Option Bufs)
    unfolding split_from
    buf_split b token = split_from (suc b.len) b token 0 bufs_create
