-- ===== src/Buf/Split/Cells.antt =====
-- src/spe_buf.c, `spe_bufs_append`: one more buffer at the end of the array.
use mathlib.Core.List.{append-nil}
use spe.Base.{
  ℕ, zero, suc, ◌+◌, ◌≤◌, ◌^◌, ◌≡◌, refl, ap, ◌∙◌, true, false, Option, none, some, List, [], ◌∷◌,
  ◌++◌, map, All, arith, length, length-append, take, take_all, replicate, get_elem?, set, ◌>>=◌,
  ◌==◌,
}
use spe.Base.Words.{add_u32}
use spe.Buf.{Buf}
use spe.Buf.Valid.{IsRealloc, IsTotal}
use spe.Buf.Total.{Owns, create-Owns, copy-Owns}
use spe.Buf.Split.{Bufs, bufs_expand, bufs_fill, bufs_at, bufs_append_at, bufs_append, add_piece}

-- Each buffer holds its piece.
abbrev pub OwnEach : List Buf → List (List ℕ) → Type 0
OwnEach [] [] = Unit
OwnEach [] (p ∷ ps) = ⊥
OwnEach (b ∷ bs) [] = ⊥
OwnEach (b ∷ bs) (p ∷ ps) = Owns b p × OwnEach bs ps

-- The array: the buffers of the pieces, then only NULL.
pub record Holds (bs : Bufs) (ps : List (List ℕ)) : Type 0 where
  pub cells : List Buf
  pub rest : List (Option Buf)
  pub elements : bs.elements ≡ map some cells ++ rest
  pub nulls : All (λ c. c ≡ none) rest
  pub each : OwnEach cells ps
  pub len : bs.len ≡ length cells
  pub size : bs.size ≡ length cells + length rest

OwnEach-length : (bs : List Buf) (ps : List (List ℕ)) → OwnEach bs ps → length bs ≡ length ps
OwnEach-length [] [] h = refl
OwnEach-length [] (p ∷ ps) h = absurd h
OwnEach-length (b ∷ bs) [] h = absurd h
OwnEach-length (b ∷ bs) (p ∷ ps) (h, hs) = ap suc (OwnEach-length bs ps hs)

OwnEach-snoc :
    (bs : List Buf) (ps : List (List ℕ)) (b : Buf) (p : List ℕ)
    → OwnEach bs ps
    → Owns b p
    → OwnEach (bs ++ (b ∷ [])) (ps ++ (p ∷ []))
OwnEach-snoc [] [] b p h o = (o, tt)
OwnEach-snoc [] (q ∷ ps) b p h o = absurd h
OwnEach-snoc (c ∷ bs) [] b p h o = absurd h
OwnEach-snoc (c ∷ bs) (q ∷ ps) b p (h, hs) o = (h, OwnEach-snoc bs ps b p hs o)

get_cell :
    (cells : List Buf) (c : Option Buf) (rest : List (Option Buf))
    → get_elem? (map some cells ++ (c ∷ rest)) (length cells) ≡ some c
get_cell [] c rest = refl
get_cell (b ∷ cells) c rest = get_cell cells c rest

set_cell :
    (cells : List Buf) (c : Option Buf) (rest : List (Option Buf)) (b : Buf)
    → set (map some cells ++ (c ∷ rest)) (length cells) (some b)
      ≡ map some (cells ++ (b ∷ [])) ++ rest
set_cell [] c rest b = refl
set_cell (d ∷ cells) c rest b = ap (◌∷◌ (some d)) (set_cell cells c rest b)

nulls_replicate : (n : ℕ) → All (λ (c : Option Buf). c ≡ none) (replicate n none)
nulls_replicate zero = tt
nulls_replicate (suc n) = (refl, nulls_replicate n)

length-map-some : (cells : List Buf) → length (map some cells) ≡ length cells
length-map-some [] = refl
length-map-some (b ∷ cells) = ap suc (length-map-some cells)

-- Behind the growth there is a NULL at `len`.
record HasRoom (bs bs' : Bufs) (cells : List Buf) : Type 0 where
  after : List (Option Buf)
  grown : bufs_expand true bs ≡ (true, bs')
  elements : bs'.elements ≡ map some cells ++ (none ∷ after)
  nulls : All (λ c. c ≡ none) after
  len : bs'.len ≡ length cells
  size : bs'.size ≡ length cells + suc (length after)

expand-HasRoom :
    (bs : Bufs) (cells : List Buf) (rest : List (Option Buf))
    → bs.elements ≡ map some cells ++ rest
    → All (λ c. c ≡ none) rest
    → bs.len ≡ length cells
    → bs.size ≡ length cells + length rest
    → length cells ≤ 2 ^ 26
    → (bs' : Bufs) × HasRoom bs bs' cells
unfolding bufs_expand
expand-HasRoom bs cells [] d z l s small =
    let full : (bs.len == bs.size) ≡ true = ground arith in
    let more : add_u32 16 bs.size ≡ 16 + length cells = omega arith in
    let padded : length (map some cells ++ replicate 16 none) ≡ length cells + 16 =
      length-append (map some cells) (replicate 16 none)
      ∙ ap (λ n. n + 16) (length-map-some cells) in
    let enough : length (map some cells ++ replicate 16 none) ≤ add_u32 16 bs.size = omega arith in
    (
      record bs {
        elements = take (add_u32 16 bs.size) (bs.elements ++ replicate 16 none);
        size = add_u32 16 bs.size;
      },
      record {
        after = replicate 15 none;
        grown = rw full refl;
        elements =
            ap (λ l. take (add_u32 16 bs.size) (l ++ replicate 16 none))
              (d ∙ append-nil (map some cells))
            ∙ take_all (add_u32 16 bs.size) (map some cells ++ replicate 16 none) enough;
        nulls = nulls_replicate 15;
        len = l;
        size = omega arith;
      },
    )
expand-HasRoom bs cells (c ∷ rest) d (z, zs) l s small =
    let roomy : (bs.len == bs.size) ≡ false = ground arith in
    (
      bs,
      record {
        after = rest;
        grown = rw roomy refl;
        elements = d ∙ ap (λ k. map some cells ++ (k ∷ rest)) z;
        nulls = zs;
        len = l;
        size = s;
      },
    )

module _ (realloc : List ℕ → ℕ → Option (List ℕ)) (law : IsRealloc realloc)
    (total : IsTotal realloc) where
  append-Holds :
      (bs : Bufs) (ps : List (List ℕ)) (src : List ℕ)
      → Holds bs ps
      → length ps ≤ 2 ^ 26
      → length src ≤ 2 ^ 25
      → (r : Bufs) × (bufs_append realloc true true bs src ≡ some (true, r))
        × Holds r (ps ++ (src ∷ []))
  unfolding bufs_append bufs_append_at bufs_at bufs_fill
  append-Holds bs ps src h few short =
      let count : length h.cells ≡ length ps = OwnEach-length h.cells ps h.each in
      let (bs', g) =
        expand-HasRoom bs h.cells h.rest h.elements h.nulls h.len h.size (omega arith) in
      let (b, e, own, _) = copy-Owns realloc law total src create-Owns short in
      let found : get_elem? bs'.elements bs'.len ≡ some none =
        ap (get_elem? bs'.elements) g.len
        ∙ ap (λ l. get_elem? l (length h.cells)) g.elements
        ∙ get_cell h.cells none g.after in
      let placed : set bs'.elements bs'.len (some b) ≡ map some (h.cells ++ (b ∷ [])) ++ g.after =
        ap (λ i. set bs'.elements i (some b)) g.len
        ∙ ap (λ l. set l (length h.cells) (some b)) g.elements
        ∙ set_cell h.cells none g.after b in
      let longer : length (h.cells ++ (b ∷ [])) ≡ length h.cells + 1 =
        length-append h.cells (b ∷ []) in
      (
        record bs' { elements = set bs'.elements bs'.len (some b); len = add_u32 bs'.len 1 },
        rw (g.grown, found, ◌>>=◌, e, ◌>>=◌) refl,
        record {
          cells = h.cells ++ (b ∷ []);
          rest = g.after;
          elements = placed;
          nulls = g.nulls;
          each = OwnEach-snoc h.cells ps b src h.each own;
          len = omega (arith, g.len, longer);
          size = omega (arith, g.size, longer);
        },
      )

  -- When nothing is refused, one more element holds the bytes.
  pub add_piece-Holds :
      (bs : Bufs) (ps : List (List ℕ)) (src : List ℕ)
      → Holds bs ps
      → length ps ≤ 2 ^ 26
      → length src ≤ 2 ^ 25
      → (r : Bufs) × (add_piece realloc (λ n. true) (λ n. true) bs src ≡ some r)
        × Holds r (ps ++ (src ∷ []))
  unfolding add_piece
  add_piece-Holds bs ps src h few short =
      let (r, e, h') = append-Holds bs ps src h few short in (r, rw (e, ◌>>=◌) refl, h')
