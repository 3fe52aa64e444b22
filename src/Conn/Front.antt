-- ===== src/Conn/Front.antt =====
-- spe_conn.c: the part of the bytes read that satisfies a read, and its move to the user's buffer.
use spe.Base.{
  ℕ, ◌+◌, ◌≤◌, ◌<◌, ◌^◌, ◌≡◌, refl, ap, ◌∙◌, inl, inr, Option, none, some, List, [], ◌++◌, arith,
  length, take, drop, ltb, leb, if◌then◌else◌, Bool-cases, Option-cases, ◌>>=◌, take_all, drop_all,
  leb→le,
}
use spe.Base.Words.{add_u32_small}
use spe.Buf.{Buf}
use spe.Buf.Valid.{IsRealloc, IsTotal}
use spe.Buf.Total.{Owns, len-Owns}
use spe.Buf.Text.Find.{find_in, search-find_in, find_in-inside}
use spe.Buf.Transfer.{transfer-Owns, transfer_all-Owns}
use spe.Conn.{Conn}
use spe.Conn.Read.{Want, anything, until, bytes_of_number, hand_over, hand_over_all, deliver}

-- How many of the bytes `ys` satisfy what is wanted: all there are, a number of them, or those up to
-- the end of the first delimiter, which is looked for in front of the first NUL.
abbrev pub after_found : List ℕ → Option ℕ → Option ℕ
after_found d none = none
after_found d (some pos) = some (pos + length d)

pub front : Want → List ℕ → Option ℕ
front anything ys = if ltb 0 (length ys) then some (length ys) else none
front (bytes_of_number n) ys = if leb n (length ys) then some n else none
front (until d) ys = after_found d (find_in ys d)

-- The connection before a read is satisfied: `xs` is with the user, `ys` was read. There is a block.
pub record Holding (c : Conn) (xs ys : List ℕ) : Type 0 where
  pub user : Owns c.buffer xs
  pub own : Owns c.read_buffer ys
  pub block : 0 < c.read_buffer.size

-- What `deliver` gives, by the length of the front.
abbrev pub Delivered : Conn → List ℕ → List ℕ → Option ℕ → Option Conn → Type 0
Delivered c xs ys none r = r ≡ none
Delivered c xs ys (some n) r =
    (n ≤ length ys)
    × (b : Buf × Buf) × (r ≡ some (record c { buffer = b.0; read_buffer = b.1 }))
    × Owns b.0 (xs ++ take n ys)
    × Owns b.1 (drop n ys)

module _ (realloc : List ℕ → ℕ → Option (List ℕ)) (law : IsRealloc realloc)
    (total : IsTotal realloc) where
  hand_over-Delivered :
      (c : Conn) (xs ys : List ℕ) (n : ℕ)
      → Holding c xs ys
      → length xs + length ys ≤ 2 ^ 25
      → n ≤ length ys
      → (r : Option Conn) × (hand_over realloc c n ≡ some r) × Delivered c xs ys (some n) r
  unfolding hand_over
  hand_over-Delivered c xs ys n h fits hn =
      let (b, e, user, own, _, _) =
        transfer-Owns realloc law total n h.user h.own h.block hn fits in
      (
        some (record c { buffer = b.0; read_buffer = b.1 }),
        rw (e, ◌>>=◌) refl,
        (hn, b, refl, user, own),
      )

  pub hand_over_all-Delivered :
      (c : Conn) (xs ys : List ℕ)
      → Holding c xs ys
      → length xs + length ys ≤ 2 ^ 25
      → (b : Buf × Buf) × (hand_over_all realloc c
          ≡ some (record c { buffer = b.0; read_buffer = b.1 }))
        × Owns b.0 (xs ++ ys)
        × Owns b.1 []
  unfolding hand_over_all
  hand_over_all-Delivered c xs ys h fits =
      let (b, e, user, own, _, _) = transfer_all-Owns realloc law total h.user h.own fits in
      (b, rw (e, ◌>>=◌) refl, user, own)

  deliver_any :
      (c : Conn) (xs ys : List ℕ)
      → Holding c xs ys
      → length xs + length ys ≤ 2 ^ 25
      → (r : Option Conn) × (deliver realloc anything c ≡ some r)
        × Delivered c xs ys (front anything ys) r
  unfolding deliver front
  deliver_any c xs ys h fits = elim (Bool-cases (ltb 0 (length ys))) [
    | inl q ↦
        let (b, e, user, own) = hand_over_all-Delivered c xs ys h fits in
        let whole = take_all (length ys) ys (omega arith) in
        let gone = drop_all (length ys) ys (omega arith) in
        (
          some (record c { buffer = b.0; read_buffer = b.1 }),
          rw (ap (ltb 0) (len-Owns h.own) ∙ q, e, ◌>>=◌) refl,
          rw q (omega arith, b, refl, rw whole user, rw gone own),
        )
    | inr q ↦ (none, rw (ap (ltb 0) (len-Owns h.own) ∙ q) refl, rw q refl)
  ]

  deliver_bytes :
      (n : ℕ) (c : Conn) (xs ys : List ℕ)
      → Holding c xs ys
      → length xs + length ys ≤ 2 ^ 25
      → (r : Option Conn) × (deliver realloc (bytes_of_number n) c ≡ some r)
        × Delivered c xs ys (front (bytes_of_number n) ys) r
  unfolding deliver front
  deliver_bytes n c xs ys h fits = elim (Bool-cases (leb n (length ys))) [
    | inl q ↦
        let (r, e, d) = hand_over-Delivered c xs ys n h fits (leb→le _ _ q) in
        (r, rw (ap (leb n) (len-Owns h.own) ∙ q) e, rw q d)
    | inr q ↦ (none, rw (ap (leb n) (len-Owns h.own) ∙ q) refl, rw q refl)
  ]

  deliver_until :
      (d : List ℕ) (c : Conn) (xs ys : List ℕ)
      → Holding c xs ys
      → length xs + length ys ≤ 2 ^ 25
      → (r : Option Conn) × (deliver realloc (until d) c ≡ some r)
        × Delivered c xs ys (front (until d) ys) r
  unfolding deliver front
  deliver_until d c xs ys h fits =
      let found = search-find_in d h.own in
      elim (Option-cases (find_in ys d)) [
        | inl z ↦ (none, rw (found, ◌>>=◌, z) refl, rw z refl)
        | inr (pos, z) ↦
            let (inside, _) = find_in-inside ys d pos z in
            let (r, e, del) = hand_over-Delivered c xs ys (pos + length d) h fits inside in
            (r, rw (found, ◌>>=◌, z, add_u32_small pos (length d) (omega arith)) e, rw z del)
      ]

  pub deliver-Delivered :
      (want : Want) (c : Conn) (xs ys : List ℕ)
      → Holding c xs ys
      → length xs + length ys ≤ 2 ^ 25
      → (r : Option Conn) × (deliver realloc want c ≡ some r) × Delivered c xs ys (front want ys) r
  deliver-Delivered anything = deliver_any
  deliver-Delivered (until d) = deliver_until d
  deliver-Delivered (bytes_of_number n) = deliver_bytes n
