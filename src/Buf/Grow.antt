-- ===== src/Buf/Grow.antt =====
-- spe_buf.c, `buf_expand` and the tests that lead to it: the content survives, and the block is
-- large enough afterwards.
use spe.Base.{
  ℕ, suc, ◌+◌, ◌*◌, ◌/◌, ◌≤◌, ◌<◌, ◌^◌, ◌≡◌, refl, sym, ap, ◌∙◌, ◌⊎◌, inl, inr, Bool, true, false,
  Option, some, List, arith, length, take, drop, get_elem?, get_elem?-take, get_elem?-lt,
  Bool-cases, Option-cases, ltb, ltb→lt, ltb-false→le,
}
use spe.Base.Words.{add_u32, sub_u32, mul_u32}
use spe.Buf.{Buf, bytes, resize, expand, reserve, reserve_all}
use spe.Buf.Valid.{IsValid, IsRealloc, Refuses}
use spe.Buf.Move.{compact_moved_lem}

-- A block that keeps the content and the byte behind it keeps the end of the content.
kept_end :
    (b : Buf) (m : List ℕ)
    → IsValid b
    → b.off ≡ 0
    → (suc b.len ≤ length b.mem → b.len < length m → take (suc b.len) m ≡ take (suc b.len) b.mem)
    → b.len < length m
    → (b.len ≡ 0) ⊎ (get_elem? m (0 + b.len) ≡ some 0)
kept_end b m v o keep h = elim v.ended [
  | inl z ↦ inl z
  | inr t ↦
      let fits : suc b.len ≤ length b.mem = omega (arith, get_elem?-lt b.mem (b.off + b.len) 0 t) in
      inr (
        ap (get_elem? m) (omega arith)
        ∙ sym (get_elem?-take b.len m)
        ∙ ap (λ l. get_elem? l b.len) (keep fits h)
        ∙ get_elem?-take b.len b.mem
        ∙ ap (get_elem? b.mem) (omega arith)
        ∙ t)
]

-- What is left of the buffer when it is made larger: `done` tells if `realloc` gave a block, which
-- then has at least `n` bytes, and at most `cap / 16`.
pub record Grown (realloc : List ℕ → ℕ → Option (List ℕ)) (b : Buf) (done : Bool) (b' : Buf)
    (n cap : ℕ) : Type 0 where
  pub valid : IsValid b'
  pub same_bytes : bytes b' ≡ bytes b
  pub same_len : b'.len ≡ b.len
  pub larger : done ≡ true → n ≤ b'.size
  pub refused : done ≡ false → Refuses realloc
  pub capped : (b'.size ≡ b.size) ⊎ (16 * b'.size ≤ cap)

module _ (realloc : List ℕ → ℕ → Option (List ℕ)) (law : IsRealloc realloc) where
  resize_lem :
      (b : Buf) (size : ℕ)
      → IsValid b
      → b.off ≡ 0
      → b.len < size
      → size < 2 ^ 32
      → Grown realloc b (resize realloc b size).0 (resize realloc b size).1 size (16 * size)
  unfolding resize
  resize_lem b size v o h hs = elim (Option-cases (realloc b.mem size)) [
    | inl e ↦
        rw (e, resize)
          (record {
            valid = v;
            same_bytes = refl;
            same_len = refl;
            larger = λ p. cc;
            refused = λ p. (b.mem, size, omega arith, e);
            capped = inl refl;
          })
    | inr (m, e) ↦
        let l = law b.mem size m e in
        let same : take b.len m ≡ take b.len b.mem =
          l.1 b.len (omega (arith, v.block, v.room)) (omega arith) in
        rw (e, resize)
          (record {
            valid = record {
              block = l.0;
              small = hs;
              room = inr (omega arith);
              ended = kept_end b m v o (λ p q. l.1 (suc b.len) p (omega arith)) (omega arith);
            };
            same_bytes = same ∙ ap (λ i. take b.len (drop i b.mem)) (sym o);
            same_len = refl;
            larger = λ p. omega arith;
            refused = λ p. cc;
            capped = inr (omega arith);
          })
  ]

  -- `buf_expand` keeps the content, and does not wrap for sizes below 2^32 / 25.
  pub expand_lem :
      (b : Buf) (n : ℕ)
      → IsValid b
      → b.len < n
      → 25 * n < 2 ^ 32
      → (r : Bool × Buf) × (expand realloc b n ≡ some r) × Grown realloc b r.0 r.1 n (25 * n)
  unfolding expand
  expand_lem b n v h hn =
      let (c, e, m, o) = compact_moved_lem b v in
      let size : ℕ = mul_u32 25 n / 16 in
      let len_c : c.len < size = omega (arith, m.same_len) in
      let g = resize_lem c size m.valid o len_c (omega arith) in
      (
        resize realloc c size,
        rw e,
        record {
          valid = g.valid;
          same_bytes = g.same_bytes ∙ m.same_bytes;
          same_len = g.same_len ∙ m.same_len;
          refused = g.refused;
          larger = λ p. omega (arith, g.larger p);
          capped = omega (arith, m.same_size, g.capped);
        },
      )

  -- After `reserve` there is room for `n` more bytes and the terminator, if it succeeds.
  pub reserve_lem :
      (b : Buf) (n : ℕ)
      → IsValid b
      → 25 * (b.size + n + 1) < 2 ^ 32
      → (r : Bool × Buf) × (reserve realloc b n ≡ some r)
        × Grown realloc b r.0 r.1 (b.len + n + 1) (25 * (b.len + n + n + 1))
  unfolding reserve
  reserve_lem b n v h = elim (Bool-cases (ltb (sub_u32 b.size b.len) (add_u32 n 1))) [
    | inl e ↦
        let (r, q, g) =
          expand_lem b (add_u32 (add_u32 b.size n) 1) v (omega (arith, v.room)) (omega arith) in
        (
          r,
          rw e q,
          record {
            valid = g.valid;
            same_bytes = g.same_bytes;
            same_len = g.same_len;
            refused = g.refused;
            larger = λ p. omega (arith, g.larger p, v.room);
            capped = omega (arith, v.room, v.small, g.capped, ltb→lt _ _ e);
          },
        )
    | inr e ↦ (
      (true, b),
      rw e,
      record {
        valid = v;
        same_bytes = refl;
        same_len = refl;
        refused = λ p. cc;
        capped = inl refl;
        larger = λ p. omega (arith, v.room, v.small, ltb-false→le _ _ e);
      },
    )
  ]

  -- The same for a buffer that is to be overwritten with `n` bytes.
  pub reserve_all_lem :
      (b : Buf) (n : ℕ)
      → IsValid b
      → 25 * (n + 1) < 2 ^ 32
      → (r : Bool × Buf) × (reserve_all realloc b n ≡ some r)
        × Grown realloc b r.0 r.1 (n + 1) (25 * (n + 1))
  unfolding reserve_all
  reserve_all_lem b n v h = elim (Bool-cases (ltb b.size (add_u32 n 1))) [
    | inl e ↦
        let (r, q, g) =
          expand_lem b (add_u32 n 1) v (omega (arith, v.room, ltb→lt _ _ e)) (omega arith) in
        (
          r,
          rw e q,
          record {
            valid = g.valid;
            same_bytes = g.same_bytes;
            same_len = g.same_len;
            refused = g.refused;
            larger = λ p. omega (arith, g.larger p);
            capped = omega (arith, g.capped);
          },
        )
    | inr e ↦ (
      (true, b),
      rw e,
      record {
        valid = v;
        same_bytes = refl;
        same_len = refl;
        refused = λ p. cc;
        capped = inl refl;
        larger = λ p. omega (arith, ltb-false→le _ _ e);
      },
    )
  ]
