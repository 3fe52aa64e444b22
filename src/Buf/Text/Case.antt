-- ===== src/Buf/Text/Case.antt =====
-- spe_buf.c, `spe_buf_to_lower` and `spe_buf_to_upper`: the loop in place is a map.
use spe.Base.{
  ℕ, zero, suc, ◌+◌, ◌≤◌, ◌≡◌, refl, ap, ◌∙◌, inl, inr, some, List, [], ◌∷◌, map, arith, length,
  take, drop, get_elem?, set, Option-cases,
}
use spe.Buf.{Buf, bytes}
use spe.Buf.Valid.{IsValid}
use spe.Buf.Text.{lower_char, upper_char, each_byte, to_lower, to_upper}

-- The bytes `[i, i + n)` of the block, each replaced by its image.
map_range : (ℕ → ℕ) → List ℕ → ℕ → ℕ → List ℕ
map_range f [] i n = []
map_range f (x ∷ m) zero zero = x ∷ m
map_range f (x ∷ m) zero (suc n) = f x ∷ map_range f m zero n
map_range f (x ∷ m) (suc i) n = x ∷ map_range f m i n

each_byte-cons :
    (f : ℕ → ℕ) (x : ℕ) (m m' : List ℕ) (i n : ℕ)
    → each_byte f m i n ≡ some m'
    → each_byte f (x ∷ m) (suc i) n ≡ some (x ∷ m')
unfolding each_byte
each_byte-cons f x m m' i zero h = ground arith
each_byte-cons f x m m' i (suc n) h = elim (Option-cases (get_elem? m i)) [
  | inl e ↦ absurd (cc (e, h))
  | inr (c, e) ↦ rw e (each_byte-cons f x (set m i (f c)) m' (suc i) n (rw e at h))
]

each_byte-map_range :
    (f : ℕ → ℕ) (m : List ℕ) (i n : ℕ)
    → i + n ≤ length m
    → each_byte f m i n ≡ some (map_range f m i n)
unfolding each_byte map_range
each_byte-map_range f [] zero zero h = refl
each_byte-map_range f [] zero (suc n) h = absurd (omega arith)
each_byte-map_range f [] (suc i) n h = absurd (omega arith)
each_byte-map_range f (x ∷ m) zero zero h = refl
each_byte-map_range f (x ∷ m) zero (suc n) h =
    each_byte-cons f (f x) m (map_range f m zero n) zero n
      (each_byte-map_range f m zero n (omega arith))
each_byte-map_range f (x ∷ m) (suc i) n h =
    each_byte-cons f x m (map_range f m i n) i n (each_byte-map_range f m i n (omega arith))

module _ (f : ℕ → ℕ) where
  length-map_range : (m : List ℕ) (i n : ℕ) → length (map_range f m i n) ≡ length m
  unfolding map_range
  length-map_range [] i n = refl
  length-map_range (x ∷ m) zero zero = refl
  length-map_range (x ∷ m) zero (suc n) = ap suc (length-map_range m zero n)
  length-map_range (x ∷ m) (suc i) n = ap suc (length-map_range m i n)

  take-map_range :
      (m : List ℕ) (i n : ℕ) → take n (drop i (map_range f m i n)) ≡ map f (take n (drop i m))
  unfolding map_range
  take-map_range [] zero zero = refl
  take-map_range [] zero (suc n) = refl
  take-map_range [] (suc i) zero = refl
  take-map_range [] (suc i) (suc n) = refl
  take-map_range (x ∷ m) zero zero = refl
  take-map_range (x ∷ m) zero (suc n) = ap (◌∷◌ (f x)) (take-map_range m zero n)
  take-map_range (x ∷ m) (suc i) n = take-map_range m i n

  get_elem?-map_range :
      (m : List ℕ) (i n k : ℕ) → k ≡ i + n → get_elem? (map_range f m i n) k ≡ get_elem? m k
  unfolding map_range
  get_elem?-map_range [] i n k e = refl
  get_elem?-map_range (x ∷ m) zero zero k e = refl
  get_elem?-map_range (x ∷ m) zero (suc n) zero e = absurd (omega arith)
  get_elem?-map_range (x ∷ m) zero (suc n) (suc k) e = get_elem?-map_range m zero n k (omega arith)
  get_elem?-map_range (x ∷ m) (suc i) n zero e = absurd (omega arith)
  get_elem?-map_range (x ∷ m) (suc i) n (suc k) e = get_elem?-map_range m i n k (omega arith)

  -- The loop over the content stays in the block, and touches nothing else.
  each_byte-content :
      (b : Buf)
      → IsValid b
      → let r : Buf = record b { mem = map_range f b.mem b.off b.len } in
        (each_byte f b.mem b.off b.len ≡ some r.mem) × IsValid r × (bytes r ≡ map f (bytes b))
  each_byte-content b v =
      let len_m = length-map_range b.mem b.off b.len in
      (
        each_byte-map_range f b.mem b.off b.len (omega (arith, v.block, v.room)),
        record {
          block = len_m ∙ v.block;
          small = v.small;
          room = v.room;
          ended = elim v.ended [
            | inl z ↦ inl z
            | inr e ↦ inr (get_elem?-map_range b.mem b.off b.len (b.off + b.len) refl ∙ e)
          ];
        },
        take-map_range b.mem b.off b.len,
      )

-- On a valid buffer, `spe_buf_to_lower` and `spe_buf_to_upper` map every byte of the content, and write nothing
-- outside it.
pub to_lower-to_upper-map :
    (b : Buf)
    → IsValid b
    → ((r : Buf) × (to_lower b ≡ some r) × IsValid r × (bytes r ≡ map lower_char (bytes b)))
      × ((r : Buf) × (to_upper b ≡ some r) × IsValid r × (bytes r ≡ map upper_char (bytes b)))
unfolding to_lower to_upper
to_lower-to_upper-map b v =
    let lower = each_byte-content lower_char b v in
    let upper = each_byte-content upper_char b v in
    (
      (record b { mem = map_range lower_char b.mem b.off b.len }, rw lower.0, lower.1, lower.2),
      (record b { mem = map_range upper_char b.mem b.off b.len }, rw upper.0, upper.1, upper.2),
    )
