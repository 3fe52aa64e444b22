-- ===== src/Buf/Append.antt =====
-- spe_buf.c, `spe_buf_append` and `spe_buf_copy`: what the buffer holds afterwards.
use spe.Base.{
  ℕ, ◌+◌, ◌*◌, ◌≤◌, ◌<◌, ◌^◌, ◌≡◌, refl, ap, ◌∙◌, ◌⊎◌, inl, inr, Bool, true, false, Option, some,
  List, ◌++◌, arith, length, take, drop, put, length-put, take-put, drop-put, length-drop,
  Bool-cases, ltb, write_at_in, ltb-false→le,
}
use spe.Base.Words.{add_u32, sub_u32}
use spe.Buf.{Buf, bytes, place, append_reserved, append, copy_reserved, copy}
use spe.Buf.Valid.{IsValid, IsRealloc, Refuses, IsEnded}
use spe.Buf.Move.{terminate_lem, compact_lem}
use spe.Buf.Grow.{reserve_lem, reserve_all_lem}

-- The content `xs`, in a valid buffer and followed by NUL.
pub record Holds (b : Buf) (xs : List ℕ) : Type 0 where
  pub valid : IsValid b
  pub content : bytes b ≡ xs
  pub nul : IsEnded b
  pub has_block : 0 < b.size

pub Holds-eq : {b : Buf} {xs ys : List ℕ} → Holds b xs → xs ≡ ys → Holds b ys
Holds-eq h e = record {
  valid = h.valid;
  content = h.content ∙ e;
  nul = h.nul;
  has_block = h.has_block;
}

-- The bytes behind the content are overwritten, and the content grows by them.
place_lem :
    (c : Buf) (src : List ℕ)
    → IsValid c
    → c.off + c.len + length src < c.size
    → let d : Buf = record c {
      mem = put c.mem (c.off + c.len) src;
      len = add_u32 c.len (length src);
    } in
      (length d.mem ≡ d.size) × (d.off + d.len < d.size) × (bytes d ≡ bytes c ++ src)
place_lem c src v h =
    let n : ℕ = c.len + length src in
    let len_n : add_u32 c.len (length src) ≡ n = omega (arith, v.small) in
    (
      length-put c.mem (c.off + c.len) src ∙ v.block,
      omega arith,
      ap (λ k. take k (drop c.off (put c.mem (c.off + c.len) src))) len_n
          ∙ ap (take n) (drop-put c.off c.len (c.off + c.len) c.mem src refl)
          ∙ take-put c.len n (drop c.off c.mem) src refl
              (omega (arith, length-drop c.off c.mem, v.block)),
    )

-- With room in the block nothing is written outside it.
pub place-Holds :
    (c : Buf) (src : List ℕ)
    → IsValid c
    → c.off + c.len + length src < c.size
    → (r : Buf) × (place c src ≡ some r) × Holds r (bytes c ++ src) × (r.size ≡ c.size)
unfolding place
place-Holds c src v h =
    let p = place_lem c src v h in
    let d : Buf = record c {
      mem = put c.mem (c.off + c.len) src;
      len = add_u32 c.len (length src);
    } in
    let (b', e, m, _, nul) = terminate_lem d p.0 v.small p.1 in
    (
      b',
      rw (write_at_in c.mem (c.off + c.len) src (omega (arith, v.block))) e,
      record {
        valid = m.valid;
        content = m.same_bytes ∙ p.2;
        nul = nul;
        has_block = omega (arith, m.same_size);
      },
      m.same_size,
    )

pub append_reserved_lem :
    (b : Buf) (src : List ℕ)
    → IsValid b
    → b.len + length src + 1 ≤ b.size
    → (r : Buf) × (append_reserved b src ≡ some r) × Holds r (bytes b ++ src) × (r.size ≡ b.size)
unfolding append_reserved
append_reserved_lem b src v h =
    elim (Bool-cases (ltb (sub_u32 b.size b.len) (b.off + add_u32 (length src) 1))) [
      | inl e ↦
          let (c, q, m, o) = compact_lem b v (omega arith) in
          let (r, q', hold, size) =
            place-Holds c src m.valid (omega (arith, m.same_len, m.same_size)) in
          (r, rw (e, q) q', Holds-eq hold (ap (λ l. l ++ src) m.same_bytes), size ∙ m.same_size)
      | inr e ↦
          let (r, q', hold, size) =
            place-Holds b src v (omega (arith, v.small, ltb-false→le _ _ e)) in
          (r, rw e q', hold, size)
    ]

pub copy_reserved_lem :
    (b : Buf) (src : List ℕ)
    → IsValid b
    → length src + 1 ≤ b.size
    → (r : Buf) × (copy_reserved b src ≡ some r) × Holds r src × (r.size ≡ b.size)
unfolding copy_reserved
copy_reserved_lem b src v h =
    let d : Buf = record b { mem = put b.mem 0 src; off = 0; len = length src } in
    let (r, e, m, _, nul) =
      terminate_lem d (length-put b.mem 0 src ∙ v.block) v.small (omega arith) in
    (
      r,
      rw (write_at_in b.mem 0 src (omega (arith, v.block))) e,
      record {
        valid = m.valid;
        content =
            m.same_bytes ∙ take-put 0 (length src) b.mem src (omega arith) (omega (arith, v.block));
        nul = nul;
        has_block = omega (arith, m.same_size);
      },
      m.same_size,
    )

-- What `append` and `copy` leave: the new content, or, after a refused `realloc`, the old one.
abbrev pub Stored : (List ℕ → ℕ → Option (List ℕ)) → Buf → List ℕ → Bool × Buf → Type 0
Stored realloc b xs r =
    ((r.0 ≡ true) × Holds r.1 xs)
    ⊎ ((r.0 ≡ false) × IsValid r.1 × (bytes r.1 ≡ bytes b) × Refuses realloc)

module _ (realloc : List ℕ → ℕ → Option (List ℕ)) (law : IsRealloc realloc) where
  pub append_lem :
      (b : Buf) (src : List ℕ)
      → IsValid b
      → 25 * (b.size + length src + 1) < 2 ^ 32
      → (r : Bool × Buf) × (append realloc b src ≡ some r)
        × Stored realloc b (bytes b ++ src) r
        × ((r.1.size ≡ b.size) ⊎ (16 * r.1.size ≤ 25 * (b.len + length src + length src + 1)))
  unfolding append
  append_lem b src v h =
      let (g, e, grown) = reserve_lem realloc law b (length src) v h in
      elim (Bool-cases g.0) [
        | inl t ↦
            let (c, q, hold, size) =
              append_reserved_lem g.1 src grown.valid
                (omega (arith, grown.larger t, grown.same_len)) in
            (
              (true, c),
              rw (e, t, q),
              inl (refl, Holds-eq hold (ap (λ l. l ++ src) grown.same_bytes)),
              omega (arith, size, grown.capped),
            )
        | inr t ↦ (
          (false, g.1),
          rw (e, t),
          inr (refl, grown.valid, grown.same_bytes, grown.refused t),
          grown.capped,
        )
      ]

  pub copy_lem :
      (b : Buf) (src : List ℕ)
      → IsValid b
      → 25 * (length src + 1) < 2 ^ 32
      → (r : Bool × Buf) × (copy realloc b src ≡ some r)
        × Stored realloc b src r
        × ((r.1.size ≡ b.size) ⊎ (16 * r.1.size ≤ 25 * (length src + 1)))
  unfolding copy
  copy_lem b src v h =
      let (g, e, grown) = reserve_all_lem realloc law b (length src) v h in
      elim (Bool-cases g.0) [
        | inl t ↦
            let (c, q, hold, size) =
              copy_reserved_lem g.1 src grown.valid (omega (arith, grown.larger t)) in
            ((true, c), rw (e, t, q), inl (refl, hold), omega (arith, size, grown.capped))
        | inr t ↦ (
          (false, g.1),
          rw (e, t),
          inr (refl, grown.valid, grown.same_bytes, grown.refused t),
          grown.capped,
        )
      ]

  -- On a valid buffer, while the size stays below 2^32 / 25, `spe_buf_append` accesses nothing
  -- outside the block: it adds `src` to the content, or, if `realloc` refuses some request, leaves
  -- the content as it was and returns false.
  pub append-Stored :
      (b : Buf) (src : List ℕ)
      → IsValid b
      → 25 * (b.size + length src + 1) < 2 ^ 32
      → (r : Bool × Buf) × (append realloc b src ≡ some r) × Stored realloc b (bytes b ++ src) r
  append-Stored b src v h = let (r, e, stored, _) = append_lem b src v h in (r, e, stored)

  -- On a valid buffer, while the new size stays below 2^32 / 25, `spe_buf_copy` replaces the content
  -- by `src`, or, if `realloc` refuses some request, leaves it as it was and returns false; it
  -- accesses nothing outside the block.
  pub copy-Stored :
      (b : Buf) (src : List ℕ)
      → IsValid b
      → 25 * (length src + 1) < 2 ^ 32
      → (r : Bool × Buf) × (copy realloc b src ≡ some r) × Stored realloc b src r
  copy-Stored b src v h = let (r, e, stored, _) = copy_lem b src v h in (r, e, stored)
