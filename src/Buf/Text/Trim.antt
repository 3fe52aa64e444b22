-- ===== src/Buf/Text/Trim.antt =====
-- spe_buf.c, `spe_buf_lstrim`, `spe_buf_rstrim` and `spe_buf_strim`: what they cut off.
use mathlib.Core.List.{append_assoc, append-nil}
use spe.Base.{
  ℕ, zero, suc, ◌+◌, ◌≤◌, ◌<◌, ◌≡◌, refl, sym, ap, ◌∙◌, ◌⊎◌, inl, inr, true, false, some, List, [],
  ◌∷◌, ◌++◌, arith, length, take, drop, take-suc, get_elem?-in, take_all, take-append-drop, All,
  All-append, Bool-cases, ◌==◌, read_at_in,
}
use spe.Base.Text.{in_set}
use spe.Buf.{Buf, bytes}
use spe.Buf.Valid.{IsValid}
use spe.Buf.Move.{content_in, length-bytes}
use spe.Buf.Append.{Holds}
use spe.Buf.Consume.{lconsume-Holds, shorten_lem}
use spe.Buf.Text.{lstrim_pos, lstrim, rstrim_len, rstrim, strim}

module _ (token : List ℕ) where
  abbrev pub Inside : ℕ → Type 0
  Inside c = in_set token c ≡ true

  abbrev pub StartsOutside : List ℕ → Type 0
  StartsOutside [] = Unit
  StartsOutside (c ∷ cs) = in_set token c ≡ false

  abbrev pub EndsOutside : List ℕ → Type 0
  EndsOutside xs =
      (xs ≡ []) ⊎ ((ys : List ℕ) × (c : ℕ) × (xs ≡ ys ++ (c ∷ [])) × (in_set token c ≡ false))

  -- `ys` is `xs` without its longest prefix and suffix of characters of `token`.
  pub record Trimmed (xs ys : List ℕ) : Type 0 where
    pub before : List ℕ
    pub after : List ℕ
    pub parts : xs ≡ before ++ (ys ++ after)
    pub before_in : All Inside before
    pub after_in : All Inside after
    pub starts : StartsOutside ys
    pub ends : EndsOutside ys

  lstrim_pos-le : (xs : List ℕ) → lstrim_pos token xs ≤ length xs
  unfolding lstrim_pos
  lstrim_pos-le [] = omega arith
  lstrim_pos-le (x ∷ xs) = ground (arith, lstrim_pos-le xs)

  lstrim_pos-Inside : (xs : List ℕ) → All Inside (take (lstrim_pos token xs) xs)
  unfolding lstrim_pos
  lstrim_pos-Inside [] = tt
  lstrim_pos-Inside (x ∷ xs) = elim (Bool-cases (in_set token x)) [
    | inl e ↦ rw (e, lstrim_pos) (e, lstrim_pos-Inside xs)
    | inr e ↦ rw (e, lstrim_pos) tt
  ]

  lstrim_pos-StartsOutside : (xs : List ℕ) → StartsOutside (drop (lstrim_pos token xs) xs)
  unfolding lstrim_pos
  lstrim_pos-StartsOutside [] = tt
  lstrim_pos-StartsOutside (x ∷ xs) = elim (Bool-cases (in_set token x)) [
    | inl e ↦ rw (e, lstrim_pos) (lstrim_pos-StartsOutside xs)
    | inr e ↦ rw (e, lstrim_pos) e
  ]

  StartsOutside-take : (k : ℕ) (xs : List ℕ) → StartsOutside xs → StartsOutside (take k xs)
  StartsOutside-take zero xs h = tt
  StartsOutside-take (suc k) [] h = tt
  StartsOutside-take (suc k) (x ∷ xs) h = h

  -- What the loop of `spe_buf_rstrim` leaves of the first `n` bytes.
  record RightTrimmed (xs : List ℕ) (n k : ℕ) : Type 0 where
    cut : List ℕ
    shorter : k ≤ n
    parts : take n xs ≡ take k xs ++ cut
    cut_in : All Inside cut
    ends : EndsOutside (take k xs)

  rstrim_len-RightTrimmed :
      (xs : List ℕ) (n : ℕ) → n ≤ length xs → RightTrimmed xs n (rstrim_len token xs n)
  unfolding rstrim_len
  rstrim_len-RightTrimmed xs zero h = record {
    cut = [];
    shorter = omega arith;
    parts = refl;
    cut_in = tt;
    ends = inl refl;
  }
  rstrim_len-RightTrimmed xs (suc n) h =
      let (c, e) = get_elem?-in n xs (omega arith) in
      let ih = rstrim_len-RightTrimmed xs n (omega arith) in
      elim (Bool-cases (in_set token c)) [
        | inl t ↦
            rw (e, rstrim_len, t)
              (record {
                cut = ih.cut ++ (c ∷ []);
                shorter = omega (arith, ih.shorter);
                parts =
                    take-suc n xs c e
                    ∙ ap (λ l. l ++ (c ∷ [])) ih.parts
                    ∙ append_assoc (take (rstrim_len token xs n) xs) ih.cut (c ∷ []);
                cut_in = All-append Inside ih.cut (c ∷ []) ih.cut_in (t, tt);
                ends = ih.ends;
              })
        | inr t ↦
            rw (e, rstrim_len, t)
              (record {
                cut = [];
                shorter = omega arith;
                parts = sym (append-nil (take (suc n) xs));
                cut_in = tt;
                ends = inr (take n xs, c, take-suc n xs c e, t);
              })
      ]

  -- `spe_buf_lstrim` removes the longest prefix of characters of `token`.
  lstrim_lem :
      (b : Buf)
      → IsValid b
      → 0 < b.size
      → (r : Buf) × (lstrim b token ≡ some r)
        × IsValid r
        × (bytes r ≡ drop (lstrim_pos token (bytes b)) (bytes b))
        × (0 < r.size)
  unfolding lstrim
  lstrim_lem b v h =
      let fits : b.off + b.len < b.size = content_in v h in
      let pos : ℕ = lstrim_pos token (bytes b) in
      let read = read_at_in b.mem b.off b.len (omega (arith, v.block)) in
      elim (Bool-cases (pos == 0)) [
        | inl e ↦
            let none_cut : pos ≡ 0 = ground arith in
            (b, rw (read, e), v, ap (λ k. drop k (bytes b)) (sym none_cut), h)
        | inr e ↦
            let (r, q, hold, _) = lconsume-Holds b pos v h in
            (r, rw (read, e) q, hold.valid, hold.content, hold.has_block)
      ]

  -- `spe_buf_rstrim` keeps the prefix that its loop stops at.
  rstrim_lem :
      (b : Buf)
      → IsValid b
      → 0 < b.size
      → (r : Buf) × (rstrim b token ≡ some r)
        × Holds r (take (rstrim_len token (bytes b) b.len) (bytes b))
        × RightTrimmed (bytes b) b.len (rstrim_len token (bytes b) b.len)
  unfolding rstrim
  rstrim_lem b v h =
      let fits : b.off + b.len < b.size = content_in v h in
      let read = read_at_in b.mem b.off b.len (omega (arith, v.block)) in
      let len_b = length-bytes b (omega (arith, v.block)) in
      let cut = rstrim_len-RightTrimmed (bytes b) b.len (omega arith) in
      let (r, q, hold, _) = shorten_lem b (rstrim_len token (bytes b) b.len) v h cut.shorter in
      (r, rw read q, hold, cut)

  -- On a valid buffer with a block, `spe_buf_strim` leaves the content without its longest prefix and suffix of characters of
  -- `token`, and writes nothing outside the block.
  pub strim-Trimmed :
      (b : Buf)
      → IsValid b
      → 0 < b.size
      → (r : Buf) × (strim b token ≡ some r) × Holds r (bytes r) × Trimmed (bytes b) (bytes r)
  unfolding strim
  strim-Trimmed b v h =
      let (c, q, vc, ec, hc) = lstrim_lem b v h in
      let (r, q', hold, cut) = rstrim_lem c vc hc in
      let pos : ℕ = lstrim_pos token (bytes b) in
      let k : ℕ = rstrim_len token (bytes c) c.len in
      let fits : c.off + c.len < c.size = content_in vc hc in
      let len_c = length-bytes c (omega (arith, vc.block)) in
      let whole : bytes c ≡ take k (bytes c) ++ cut.cut =
        sym (take_all c.len (bytes c) (omega arith)) ∙ cut.parts in
      (
        r,
        rw q q',
        record { valid = hold.valid; content = refl; nul = hold.nul; has_block = hold.has_block },
        rw hold.content (record {
          before = take pos (bytes b);
          after = cut.cut;
          parts =
              sym (take-append-drop pos (bytes b))
              ∙ ap (λ l. take pos (bytes b) ++ l) (sym ec ∙ whole);
          before_in = lstrim_pos-Inside (bytes b);
          after_in = cut.cut_in;
          starts = StartsOutside-take k (bytes c) (rw ec (lstrim_pos-StartsOutside (bytes b)));
          ends = cut.ends;
        }),
      )
