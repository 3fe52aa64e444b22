-- ===== src/Buf/Total.antt =====
-- spe_buf.c for its clients: while contents stay below 32 MiB and no `realloc` is refused, the
-- buffer is the list of its bytes, and no size ever wraps.
use spe.Base.{
  ℕ, ◌+◌, ◌-◌, ◌≤◌, ◌<◌, ◌^◌, ◌≡◌, refl, sym, ap, ◌∙◌, inl, inr, Bool, true, Option, some, List, [],
  ◌++◌, arith, length, take, drop,
}
use spe.Buf.{Buf, bytes, create, append, copy, lconsume, rconsume, clean}
use spe.Buf.Valid.{IsValid, IsRealloc, IsTotal, Refuses}
use spe.Buf.Move.{length-bytes}
use spe.Buf.Append.{Holds, Stored, append_lem, copy_lem}
use spe.Buf.Consume.{lconsume-Holds, rconsume-Holds, clean-empty}

-- A valid buffer with the content `xs`, in a block of at most 128 MiB.
pub record Owns (b : Buf) (xs : List ℕ) : Type 0 where
  pub valid : IsValid b
  pub content : bytes b ≡ xs
  pub modest : b.size ≤ 2 ^ 27

pub create-Owns : Owns create []
create-Owns = record {
  valid = record {
    block = refl;
    small = omega arith;
    room = inl (refl, refl, refl);
    ended = inl refl;
  };
  content = refl;
  modest = omega arith;
}

pub len-Owns : {b : Buf} {xs : List ℕ} → Owns b xs → b.len ≡ length xs
len-Owns {b} o =
    sym (length-bytes b (omega (arith, o.valid.block, o.valid.room))) ∙ ap length o.content

-- A request of at least one byte is met, so the outcome is the first of the two.
pub not-Refuses : (realloc : List ℕ → ℕ → Option (List ℕ)) → IsTotal realloc → ¬ Refuses realloc
not-Refuses realloc total (m, n, h, e) = let (m', e') = total m n h in cc (e, e')

module _ (realloc : List ℕ → ℕ → Option (List ℕ)) (law : IsRealloc realloc)
    (total : IsTotal realloc) where
  Stored-true :
      (b : Buf) (xs : List ℕ) (r : Bool × Buf) → Stored realloc b xs r → (r.0 ≡ true) × Holds r.1 xs
  Stored-true b xs r (inl h) = h
  Stored-true b xs r (inr h) = absurd (not-Refuses realloc total h.3)

  pub append-Owns :
      {b : Buf} {xs : List ℕ} (src : List ℕ)
      → Owns b xs
      → length xs + length src ≤ 2 ^ 25
      → (r : Buf) × (append realloc b src ≡ some (true, r)) × Owns r (xs ++ src) × (0 < r.size)
  append-Owns {b} {xs} src o h =
      let len = len-Owns o in
      let (r, e, stored, cap) = append_lem realloc law b src o.valid (omega (arith, o.modest)) in
      let (done, hold) = Stored-true b (bytes b ++ src) r stored in
      (
        r.1,
        e ∙ ap (λ t. some (t, r.1)) done,
        record {
          valid = hold.valid;
          content = hold.content ∙ ap (λ l. l ++ src) o.content;
          modest = omega (arith, o.modest, cap);
        },
        hold.has_block,
      )

  pub copy-Owns :
      {b : Buf} {xs : List ℕ} (src : List ℕ)
      → Owns b xs
      → length src ≤ 2 ^ 25
      → (r : Buf) × (copy realloc b src ≡ some (true, r)) × Owns r src × (0 < r.size)
  copy-Owns {b} {xs} src o h =
      let (r, e, stored, cap) = copy_lem realloc law b src o.valid (omega arith) in
      let (done, hold) = Stored-true b src r stored in
      (
        r.1,
        e ∙ ap (λ t. some (t, r.1)) done,
        record {
          valid = hold.valid;
          content = hold.content;
          modest = omega (arith, o.modest, cap);
        },
        hold.has_block,
      )

pub lconsume-Owns :
    {b : Buf} {xs : List ℕ} (n : ℕ)
    → Owns b xs
    → 0 < b.size
    → (r : Buf) × (lconsume b n ≡ some r) × Owns r (drop n xs) × (0 < r.size)
lconsume-Owns {b} {xs} n o h =
    let (r, e, hold, size) = lconsume-Holds b n o.valid h in
    (
      r,
      e,
      record {
        valid = hold.valid;
        content = hold.content ∙ ap (drop n) o.content;
        modest = omega (arith, o.modest);
      },
      hold.has_block,
    )

pub rconsume-Owns :
    {b : Buf} {xs : List ℕ} (n : ℕ)
    → Owns b xs
    → 0 < b.size
    → (r : Buf) × (rconsume b n ≡ some r) × Owns r (take (length xs - n) xs) × (0 < r.size)
rconsume-Owns {b} {xs} n o h =
    let (r, e, hold, size) = rconsume-Holds b n o.valid h in
    (
      r,
      e,
      record {
        valid = hold.valid;
        content =
            hold.content ∙ ap (take (b.len - n)) o.content ∙ ap (λ k. take (k - n) xs) (len-Owns o);
        modest = omega (arith, o.modest);
      },
      hold.has_block,
    )

pub clean-Owns :
    {b : Buf} {xs : List ℕ}
    → Owns b xs
    → (r : Buf) × (clean b ≡ some r) × Owns r [] × (r.size ≡ b.size)
clean-Owns {b} o =
    let (r, e, valid, empty, size) = clean-empty b o.valid in
    (r, e, record { valid = valid; content = empty; modest = omega (arith, o.modest) }, size)
