-- ===== src/Buf/Split/Rest.antt =====
-- src/spe_buf.c, `spe_buf_split`: what is behind `start` in a buffer.
use spe.Base.{
  ℕ, suc, ◌+◌, ◌-◌, ◌≤◌, ◌<◌, ◌≡◌, refl, sym, ap, ◌∙◌, inl, inr, some, List, arith, take, drop,
  take-drop, take-take, drop-drop, get_elem?, get_elem?-drop, split_at, read_at, read_at_in,
}
use spe.Base.Text.{c_string}
use spe.Buf.{Buf}
use spe.Buf.Total.{Owns}
use spe.Buf.Text.Search.{before_nul, c_string-before_nul}

module _ (b : Buf) (ys : List ℕ) (own : Owns b ys) where
  rest_of :
      (start : ℕ)
      → start ≤ b.len
      → drop start ys ≡ take (b.len - start) (drop (b.off + start) b.mem)
  rest_of start h =
      ap (drop start) (sym own.content)
      ∙ take-drop start (b.len - start) b.len (drop b.off b.mem) (omega arith)
      ∙ ap (take (b.len - start)) (drop-drop b.off start (b.off + start) b.mem refl)

  -- The C string that strstr reads.
  pub c_string-rest :
      (start : ℕ)
      → start < b.len
      → c_string (drop (b.off + start) b.mem) ≡ some (before_nul (drop start ys))
  c_string-rest start h = elim own.valid.ended [
    | inl z ↦ absurd (omega arith)
    | inr e ↦
        let at_end : get_elem? (drop (b.off + start) b.mem) (b.len - start) ≡ some 0 =
          get_elem?-drop (b.off + start) (b.len - start) (b.off + b.len) b.mem (omega arith) ∙ e in
        let rest : List ℕ = drop (suc (b.len - start)) (drop (b.off + start) b.mem) in
        ap c_string (split_at (b.len - start) (drop (b.off + start) b.mem) 0 at_end)
        ∙ c_string-before_nul (take (b.len - start) (drop (b.off + start) b.mem)) rest
        ∙ ap (λ l. some (before_nul l)) (sym (rest_of start (omega arith)))
  ]

  pub read-rest :
      (start i : ℕ)
      → start + i ≤ b.len
      → read_at b.mem (b.off + start) i ≡ some (take i (drop start ys))
  read-rest start i h =
      read_at_in b.mem (b.off + start) i (omega (arith, own.valid.block, own.valid.room))
      ∙ ap some (
          sym (
            ap (take i) (rest_of start (omega arith))
            ∙ take-take i (b.len - start) (drop (b.off + start) b.mem) (omega arith)))
