-- ===== src/Buf/Split/Pieces.antt =====
-- src/spe_buf.c, `spe_buf_split`: the pieces between the tokens.
use mathlib.Core.Path.{subst}
use mathlib.Core.List.{append_assoc, append-nil}
use spe.Base.{
  ℕ, zero, suc, ◌+◌, ◌-◌, ◌≤◌, ◌<◌, ◌^◌, ◌≡◌, refl, sym, ap, ◌∙◌, inl, inr, true, false, Bool-cases,
  Option-cases, Option, none, some, List, [], ◌∷◌, ◌++◌, arith, length, length-append, length-drop,
  length-take, take, drop, take_all, drop_all, drop-drop, read_at, leb, leb→le, if◌then◌else◌,
  ◌>>=◌, ◌==◌,
}
use spe.Base.Words.{sub_u32}
use spe.Base.Text.{strstr}
use spe.Buf.{Buf}
use spe.Buf.Valid.{IsRealloc, IsTotal}
use spe.Buf.Total.{Owns, len-Owns}
use spe.Buf.Text.Search.{before_nul, StartsNowhere, FirstAt, Found, strstr-Found, strstr-inside}
use spe.Buf.Split.{Bufs, bufs_create, split_end, split_found, split_at_point, split_from, buf_split}
use spe.Buf.Split.Rest.{c_string-rest, read-rest}
use spe.Buf.Split.Cells.{Holds, add_piece-Holds}

-- The piece in front of a token, left out if it is empty.
abbrev pub part : ℕ → List ℕ → List (List ℕ)
part i xs = if i == 0 then [] else take i xs ∷ []

part-bound : (i : ℕ) (xs : List ℕ) → length (part i xs) ≤ 1
part-bound i xs = elim (Bool-cases (i == 0)) [
  | inl q ↦ rw q (omega arith)
  | inr q ↦ rw q (omega arith)
]

-- The pieces of a text: it is empty, or has no token in front of its first NUL, or is cut at the first
-- token.
pub data IsSplit (token : List ℕ) : List ℕ → List (List ℕ) → Type 0 where
  nothing : IsSplit token [] []
  whole :
      (xs : List ℕ)
      → 0 < length xs
      → StartsNowhere token (before_nul xs)
      → IsSplit token xs (xs ∷ [])
  cut :
      (xs : List ℕ) (i : ℕ) (ps : List (List ℕ))
      → FirstAt token (before_nul xs) i
      → IsSplit token (drop (i + length token) xs) ps
      → IsSplit token xs (part i xs ++ ps)

module _ (b : Buf) (ys : List ℕ) (own : Owns b ys) (realloc : List ℕ → ℕ → Option (List ℕ))
    (law : IsRealloc realloc) (total : IsTotal realloc) (small : length ys ≤ 2 ^ 25) where
  found-Holds :
      (start i : ℕ) (bs : Bufs) (ps : List (List ℕ))
      → start + i ≤ b.len
      → Holds bs ps
      → length ps ≤ 2 ^ 26
      → (r : Bufs) × (split_found realloc (λ n. true) (λ n. true) b start i bs ≡ some r)
        × Holds r (ps ++ part i (drop start ys))
  unfolding split_found
  found-Holds start i bs ps h hold few = elim (Bool-cases (i == 0)) [
    | inl q ↦ (bs, rw q refl, rw (q, append-nil ps) hold)
    | inr q ↦
        let len : b.len ≡ length ys = len-Owns own in
        let short : length (take i (drop start ys)) ≤ 2 ^ 25 =
          omega (arith, length-take i (drop start ys)) in
        let (r, e, hold') =
          add_piece-Holds realloc law total bs ps (take i (drop start ys)) hold few short in
        (r, rw (q, read-rest b ys own start i h, ◌>>=◌) e, rw q hold')
  ]

  end-Holds :
      (start : ℕ) (bs : Bufs) (ps : List (List ℕ))
      → start < b.len
      → Holds bs ps
      → length ps ≤ 2 ^ 26
      → (r : Bufs) × (split_end realloc (λ n. true) (λ n. true) b start bs ≡ some r)
        × Holds r (ps ++ (drop start ys ∷ []))
  unfolding split_end
  end-Holds start bs ps h hold few =
      let len : b.len ≡ length ys = len-Owns own in
      let more : (b.len == start) ≡ false = ground arith in
      let left : sub_u32 b.len start ≡ b.len - start = omega (arith, own.valid.small) in
      let all : take (b.len - start) (drop start ys) ≡ drop start ys =
        take_all (b.len - start) (drop start ys) (omega (arith, length-drop start ys)) in
      let short : length (drop start ys) ≤ 2 ^ 25 = omega (arith, length-drop start ys) in
      let (r, e, hold') = add_piece-Holds realloc law total bs ps (drop start ys) hold few short in
      let seen : read_at b.mem (b.off + start) (sub_u32 b.len start) ≡ some (drop start ys) =
        ap (read_at b.mem (b.off + start)) left
        ∙ read-rest b ys own start (b.len - start) (omega arith)
        ∙ ap some all in
      (r, rw (more, seen, ◌>>=◌) e, hold')

  -- A round of the loop in front of the end, and the round at the end.
  split_from_round :
      (token : List ℕ) (fuel start : ℕ) (bs : Bufs) (o : Option ℕ)
      → start < b.len
      → strstr (before_nul (drop start ys)) token ≡ o
      → split_from realloc (λ n. true) (λ n. true) (suc fuel) b token start bs
        ≡ split_at_point realloc
            (λ n. true)
            (λ n. true)
            (λ start' bs'. split_from realloc (λ n. true) (λ n. true) fuel b token start' bs')
            b
            token
            start
            bs
            o
  unfolding split_from
  split_from_round token fuel start bs o h e =
      let on : leb b.len start ≡ false = ground arith in
      rw (on, c_string-rest b ys own start h, ◌>>=◌, e) refl

  split_from_end :
      (token : List ℕ) (fuel start : ℕ) (bs : Bufs)
      → start ≡ b.len
      → split_from realloc (λ n. true) (λ n. true) (suc fuel) b token start bs ≡ some (some bs)
  unfolding split_from split_end
  split_from_end token fuel start bs h =
      let off : leb b.len start ≡ true = ground arith in
      let same : (b.len == start) ≡ true = ground arith in rw (off, same, ◌>>=◌) refl

  last-IsSplit :
      (token : List ℕ) (fuel start : ℕ) (bs : Bufs) (ps : List (List ℕ))
      → start < b.len
      → Holds bs ps
      → length ps ≤ start
      → strstr (before_nul (drop start ys)) token ≡ none
      → (r : Bufs) × (qs : List (List ℕ)) × (split_from realloc
            (λ n. true)
            (λ n. true)
            (suc fuel)
            b
            token
            start
            bs
          ≡ some (some r))
        × Holds r (ps ++ qs)
        × IsSplit token (drop start ys) qs
  unfolding split_at_point
  last-IsSplit token fuel start bs ps h hold few e =
      let len : b.len ≡ length ys = len-Owns own in
      let (r, z, hold') = end-Holds start bs ps h hold (omega arith) in
      let nowhere : StartsNowhere token (before_nul (drop start ys)) =
        subst (λ o. Found token (before_nul (drop start ys)) o) e
          (strstr-Found (before_nul (drop start ys)) token) in
      (
        r,
        drop start ys ∷ [],
        split_from_round token fuel start bs none h e ∙ rw (z, ◌>>=◌) refl,
        hold',
        whole (drop start ys) (omega (arith, length-drop start ys)) nowhere,
      )

  split_from-IsSplit :
      (token : List ℕ) (fuel start : ℕ) (bs : Bufs) (ps : List (List ℕ))
      → 0 < length token
      → start ≤ b.len
      → b.len < fuel + start
      → Holds bs ps
      → length ps ≤ start
      → (r : Bufs) × (qs : List (List ℕ)) × (split_from realloc
            (λ n. true)
            (λ n. true)
            fuel
            b
            token
            start
            bs
          ≡ some (some r))
        × Holds r (ps ++ qs)
        × IsSplit token (drop start ys) qs
  unfolding split_at_point
  split_from-IsSplit token zero start bs ps one h f hold few = absurd (omega arith)
  split_from-IsSplit token (suc fuel) start bs ps one h f hold few =
      let len : b.len ≡ length ys = len-Owns own in
      elim (Bool-cases (leb b.len start)) [
        | inl q ↦
            let at_end : start ≡ b.len = omega (arith, leb→le b.len start q) in
            let none_left : drop start ys ≡ [] = drop_all start ys (omega arith) in
            (
              bs,
              [],
              split_from_end token fuel start bs at_end,
              rw (append-nil ps) hold,
              rw none_left nothing,
            )
        | inr q ↦
            let before_end : start < b.len = ground arith in
            elim (Option-cases (strstr (before_nul (drop start ys)) token)) [
              | inl e ↦ last-IsSplit token fuel start bs ps before_end hold few e
              | inr (i, e) ↦
                  let inside : i + length token ≤ length (drop start ys) =
                    strstr-inside (drop start ys) token i e in
                  let room : start + i + length token ≤ b.len =
                    omega (arith, length-drop start ys) in
                  let (r, z, hold') = found-Holds start i bs ps (omega arith) hold (omega arith) in
                  let parts : length (part i (drop start ys)) ≤ 1 = part-bound i (drop start ys) in
                  let (r', qs, z', hold'', is) =
                    split_from-IsSplit token fuel (start + i + length token) r
                      (ps ++ part i (drop start ys)) one room (omega arith) hold'
                      (omega (arith, length-append ps (part i (drop start ys)))) in
                  let first : FirstAt token (before_nul (drop start ys)) i =
                    subst (λ o. Found token (before_nul (drop start ys)) o) e
                      (strstr-Found (before_nul (drop start ys)) token) in
                  let later : drop (start + i + length token) ys
                      ≡ drop (i + length token) (drop start ys) =
                    sym (
                      drop-drop start (i + length token) (start + i + length token) ys
                        (omega arith)) in
                  (
                    r',
                    part i (drop start ys) ++ qs,
                    split_from_round token fuel start bs (some i) before_end e ∙ rw (z, ◌>>=◌) z',
                    subst (Holds r') (append_assoc ps (part i (drop start ys)) qs) hold'',
                    cut (drop start ys) i qs first (subst (λ l. IsSplit token l qs) later is),
                  )
            ]
      ]

  empty-Holds : Holds bufs_create []
  empty-Holds = record {
    cells = [];
    rest = [];
    elements = refl;
    nulls = tt;
    each = tt;
    len = refl;
    size = refl;
  }

  -- `spe_buf_split` of a buffer with the content `ys`, at most 2^25 bytes, by a token that is not empty, when
  -- nothing is refused: it ends, and the array holds the pieces of `ys`. These are cut off in front of the
  -- first token each time, an empty one is left out, and the last is what has no token in front of its first
  -- NUL.
  pub buf_split-IsSplit :
      (token : List ℕ)
      → 0 < length token
      → (r : Bufs) × (qs : List (List ℕ)) × (buf_split realloc (λ n. true) (λ n. true) b token
          ≡ some (some r))
        × Holds r qs
        × IsSplit token ys qs
  unfolding buf_split
  buf_split-IsSplit token one =
      split_from-IsSplit token (suc b.len) 0 bufs_create [] one (omega arith) (omega arith)
        empty-Holds (omega arith)
