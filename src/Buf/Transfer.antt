-- ===== src/Buf/Transfer.antt =====
-- Moving bytes from the front of one buffer to the end of another: the lines that spe_io.c and
-- spe_conn.c repeat after a read.
use spe.Base.{
  ℕ, ◌+◌, ◌≤◌, ◌<◌, ◌^◌, ◌≡◌, sym, ap, ◌∙◌, Option, some, List, [], ◌++◌, arith, length, take, drop,
  length-take, take-take, read_at, read_at_in, ◌>>=◌,
}
use spe.Buf.{Buf, append, lconsume, clean}
use spe.Buf.Valid.{IsRealloc, IsTotal}
use spe.Buf.Total.{Owns, len-Owns, append-Owns, lconsume-Owns, clean-Owns}

module _ (realloc : List ℕ → ℕ → Option (List ℕ)) where
  -- spe_buf_append(dst, src->data, n); spe_buf_lconsume(src, n); the result is not looked at.
  unfoldable pub transfer : Buf → Buf → ℕ → Option (Buf × Buf)
  transfer dst src n = do
    xs ← read_at src.mem src.off n
    r ← append realloc dst xs
    s ← lconsume src n
    some (r.1, s)

  -- spe_buf_append(dst, src->data, src->len); spe_buf_clean(src);
  unfoldable pub transfer_all : Buf → Buf → Option (Buf × Buf)
  transfer_all dst src = do
    xs ← read_at src.mem src.off src.len
    r ← append realloc dst xs
    s ← clean src
    some (r.1, s)

  module _ (law : IsRealloc realloc) (total : IsTotal realloc) where
    pub transfer-Owns :
        {dst src : Buf} {xs ys : List ℕ} (n : ℕ)
        → Owns dst ys
        → Owns src xs
        → 0 < src.size
        → n ≤ length xs
        → length ys + length xs ≤ 2 ^ 25
        → (r : Buf × Buf) × (transfer dst src n ≡ some r)
          × Owns r.0 (ys ++ take n xs)
          × Owns r.1 (drop n xs)
          × (0 < r.0.size)
          × (0 < r.1.size)
    unfolding transfer
    transfer-Owns {dst} {src} {xs} {ys} n od os h hn fits =
        let len = len-Owns os in
        let front : take n (drop src.off src.mem) ≡ take n xs =
          sym (take-take n src.len (drop src.off src.mem) (omega arith)) ∙ ap (take n) os.content in
        let (d, e, owns, block) =
          append-Owns realloc law total (take n xs) od (omega (arith, length-take n xs)) in
        let (s, q, rest, left) = lconsume-Owns n os h in
        let read = read_at_in src.mem src.off n (omega (arith, os.valid.block, os.valid.room)) in
        ((d, s), rw (read, front, e, q), owns, rest, block, left)

    pub transfer_all-Owns :
        {dst src : Buf} {xs ys : List ℕ}
        → Owns dst ys
        → Owns src xs
        → length ys + length xs ≤ 2 ^ 25
        → (r : Buf × Buf) × (transfer_all dst src ≡ some r)
          × Owns r.0 (ys ++ xs)
          × Owns r.1 []
          × (0 < r.0.size)
          × (r.1.size ≡ src.size)
    unfolding transfer_all
    transfer_all-Owns {dst} {src} {xs} {ys} od os fits =
        let (d, e, owns, block) = append-Owns realloc law total xs od fits in
        let (s, q, rest, size) = clean-Owns os in
        let read =
          read_at_in src.mem src.off src.len (omega (arith, os.valid.block, os.valid.room)) in
        ((d, s), rw (read, os.content, e, q), owns, rest, block, size)
