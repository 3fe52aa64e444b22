-- ===== src/Buf/Move.antt =====
-- spe_buf.c: the terminator behind the content, and the move of the content to the start.
use spe.Base.{
  ℕ, ◌+◌, ◌≤◌, ◌<◌, ◌^◌, ◌≡◌, refl, ap, ◌∙◌, inl, inr, some, List, [], ◌∷◌, arith, length, take,
  drop, put, length-put, take-put, take-put_before, drop-put, get_elem?-put_one, length-take,
  length-drop, read_at_in, write_at_in, Bool-cases, ◌==◌,
}
use spe.Buf.{Buf, bytes, terminate, compact, compact_moved}
use spe.Buf.Valid.{IsValid, IsEnded}

-- A buffer with the same content, in a block of the same size.
pub record Moved (b b' : Buf) : Type 0 where
  pub valid : IsValid b'
  pub same_bytes : bytes b' ≡ bytes b
  pub same_len : b'.len ≡ b.len
  pub same_size : b'.size ≡ b.size

-- The content lies in the block, with room for the terminator.
pub content_in : {b : Buf} → IsValid b → 0 < b.size → b.off + b.len < b.size
content_in v h = omega arith

pub length-bytes : (b : Buf) → b.off + b.len ≤ length b.mem → length (bytes b) ≡ b.len
length-bytes b h = omega (arith, length-take b.len (drop b.off b.mem), length-drop b.off b.mem)

-- The terminator is written inside the block, and changes nothing of the content.
pub terminate_lem :
    (b : Buf)
    → length b.mem ≡ b.size
    → b.size < 2 ^ 32
    → b.off + b.len < b.size
    → (b' : Buf) × (terminate b ≡ some b') × Moved b b' × (b'.off ≡ b.off) × IsEnded b'
unfolding terminate
terminate_lem b hb hs h = (
  record b { mem = put b.mem (b.off + b.len) (0 ∷ []) },
  rw (write_at_in b.mem (b.off + b.len) (0 ∷ []) (omega arith)),
  record {
    valid = record {
      block = length-put b.mem (b.off + b.len) (0 ∷ []) ∙ hb;
      small = hs;
      room = inr h;
      ended = inr (get_elem?-put_one b.mem (b.off + b.len) 0 (omega arith));
    };
    same_bytes =
        ap (take b.len) (drop-put b.off b.len (b.off + b.len) b.mem (0 ∷ []) refl)
        ∙ take-put_before b.len b.len (drop b.off b.mem) (0 ∷ []) (omega arith);
    same_len = refl;
    same_size = refl;
  },
  refl,
  get_elem?-put_one b.mem (b.off + b.len) 0 (omega arith),
)

-- Moving the content to the start of the block keeps it.
pub compact_lem :
    (b : Buf)
    → IsValid b
    → 0 < b.size
    → (b' : Buf) × (compact b ≡ some b') × Moved b b' × (b'.off ≡ 0)
unfolding compact
compact_lem b v h =
    let fits : b.off + b.len < b.size = content_in v h in
    let xs : List ℕ = bytes b in
    let len_xs : length xs ≡ b.len = length-bytes b (omega (arith, v.block)) in
    let moved : Buf = record b { mem = put b.mem 0 xs; off = 0 } in
    let (b', e, m, o, _) =
      terminate_lem moved (length-put b.mem 0 xs ∙ v.block) v.small (omega arith) in
    (
      b',
      rw
          (
            read_at_in b.mem b.off b.len (omega (arith, v.block)),
            write_at_in b.mem 0 xs (omega (arith, v.block)),
          )
          e,
      record {
        valid = m.valid;
        same_bytes =
            m.same_bytes ∙ take-put 0 b.len b.mem xs (omega arith) (omega (arith, v.block));
        same_len = m.same_len;
        same_size = m.same_size;
      },
      o,
    )

pub compact_moved_lem :
    (b : Buf) → IsValid b → (b' : Buf) × (compact_moved b ≡ some b') × Moved b b' × (b'.off ≡ 0)
unfolding compact_moved
compact_moved_lem b v = elim (Bool-cases (b.off == 0)) [
  | inl e ↦ (
    b,
    rw e,
    record { valid = v; same_bytes = refl; same_len = refl; same_size = refl },
    ground arith,
  )
  | inr e ↦ let r = compact_lem b v (ground arith) in (r.0, rw e r.1, r.2, r.3)
]
