-- ===== src/Buf/Consume.antt =====
-- spe_buf.c, `spe_buf_lconsume` and `spe_buf_rconsume`, and spe_buf.h, `spe_buf_clean`.
use spe.Base.{
  ℕ, ◌+◌, ◌-◌, ◌≤◌, ◌<◌, ◌≡◌, refl, sym, ap, ◌∙◌, inl, inr, none, some, [], arith, take, drop,
  drop-drop, drop_all, take-drop, take-take, Bool-cases, ltb, leb, ◌==◌, ltb-false→le, ltb→lt,
  leb→le, write_at,
}
use spe.Buf.{Buf, bytes, terminate, clean, lconsume, rconsume}
use spe.Buf.Valid.{IsValid}
use spe.Buf.Move.{content_in, length-bytes, terminate_lem}
use spe.Buf.Append.{Holds, Holds-eq}

-- Taking `k` bytes off the front, and ending the content there.
lconsume_place_lem :
    (b : Buf) (k : ℕ)
    → IsValid b
    → 0 < b.size
    → k ≤ b.len
    → let d : Buf = record b { off = b.off + k; len = b.len - k } in
      (r : Buf) × (terminate d ≡ some r) × Holds r (drop k (bytes b)) × (r.size ≡ b.size)
lconsume_place_lem b k v h hk =
    let fits : b.off + b.len < b.size = content_in v h in
    let d : Buf = record b { off = b.off + k; len = b.len - k } in
    let (r, e, m, _, nul) = terminate_lem d v.block v.small (omega arith) in
    let cut : bytes d ≡ drop k (bytes b) =
      ap (take (b.len - k)) (sym (drop-drop b.off k (b.off + k) b.mem refl))
      ∙ sym (take-drop k (b.len - k) b.len (drop b.off b.mem) (omega arith)) in
    (
      r,
      e,
      record {
        valid = m.valid;
        content = m.same_bytes ∙ cut;
        nul = nul;
        has_block = omega (arith, m.same_size);
      },
      m.same_size,
    )

-- `spe_buf_lconsume` drops the first `n` bytes, or all of them if there are fewer, and writes
-- nothing outside the block.
pub lconsume-Holds :
    (b : Buf) (n : ℕ)
    → IsValid b
    → 0 < b.size
    → (r : Buf) × (lconsume b n ≡ some r) × Holds r (drop n (bytes b)) × (r.size ≡ b.size)
unfolding lconsume
lconsume-Holds b n v h =
    let fits : b.off + b.len < b.size = content_in v h in
    let len_b = length-bytes b (omega (arith, v.block)) in
    elim (Bool-cases (ltb b.len n)) [
      | inl e ↦
          let (r, q, hold, size) = lconsume_place_lem b b.len v h (omega arith) in
          let gone : drop b.len (bytes b) ≡ drop n (bytes b) =
            drop_all b.len (bytes b) (omega arith)
            ∙ sym (drop_all n (bytes b) (omega (arith, ltb→lt _ _ e))) in
          (r, rw e q, Holds-eq hold gone, size)
      | inr e ↦
          let (r, q, hold, size) = lconsume_place_lem b n v h (omega (arith, ltb-false→le _ _ e)) in
          (r, rw e q, hold, size)
    ]

-- Keeping the first `k` bytes.
pub shorten_lem :
    (b : Buf) (k : ℕ)
    → IsValid b
    → 0 < b.size
    → k ≤ b.len
    → (r : Buf) × (terminate (record b { len = k }) ≡ some r)
      × Holds r (take k (bytes b))
      × (r.size ≡ b.size)
shorten_lem b k v h hk =
    let fits : b.off + b.len < b.size = content_in v h in
    let d : Buf = record b { len = k } in
    let (r, e, m, _, nul) = terminate_lem d v.block v.small (omega arith) in
    (
      r,
      e,
      record {
        valid = m.valid;
        content = m.same_bytes ∙ sym (take-take k b.len (drop b.off b.mem) hk);
        nul = nul;
        has_block = omega (arith, m.same_size);
      },
      m.same_size,
    )

-- `spe_buf_rconsume` drops the last `n` bytes, or all of them if there are fewer.
pub rconsume-Holds :
    (b : Buf) (n : ℕ)
    → IsValid b
    → 0 < b.size
    → (r : Buf) × (rconsume b n ≡ some r) × Holds r (take (b.len - n) (bytes b)) × (r.size ≡ b.size)
unfolding rconsume
rconsume-Holds b n v h = elim (Bool-cases (leb b.len n)) [
  | inl e ↦
      let (r, q, hold, size) = shorten_lem b (b.len - b.len) v h (omega arith) in
      (r, rw e q, Holds-eq hold (ap (λ k. take k (bytes b)) (omega (arith, leb→le _ _ e))), size)
  | inr e ↦
      let (r, q, hold, size) = shorten_lem b (b.len - n) v h (omega arith) in
      (r, rw e q, hold, size)
]

-- `spe_buf_clean` empties any buffer, also one without a block.
pub clean-empty :
    (b : Buf)
    → IsValid b
    → (r : Buf) × (clean b ≡ some r) × IsValid r × (bytes r ≡ []) × (r.size ≡ b.size)
unfolding clean
clean-empty b v = elim (Bool-cases (b.size == 0)) [
  | inl e ↦ (
    record b { off = 0; len = 0 },
    rw e,
    record {
      block = v.block;
      small = v.small;
      room = inl (ground arith, refl, refl);
      ended = inl refl;
    },
    refl,
    refl,
  )
  | inr e ↦
      let d : Buf = record b { off = 0; len = 0 } in
      let (r, q, m, _, _) = terminate_lem d v.block v.small (ground arith) in
      (r, rw e q, m.valid, m.same_bytes, m.same_size)
]

-- A buffer without a block: `spe_buf_lconsume` and `spe_buf_rconsume` write through NULL, whatever
-- the length.
pub consume_no_block :
    (b : Buf) (n : ℕ) → b.mem ≡ [] → (lconsume b n ≡ none) × (rconsume b n ≡ none)
unfolding lconsume rconsume write_at
consume_no_block b n e = (ground arith, ground arith)
