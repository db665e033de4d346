-- ===== src/Staging/Blocks/Chunks.antt =====
-- Which bytes the blocks of a chunk have, and which blocks a chunk marks.
use native.Mathlib.Nat.{div-add-mod', add-mul, div-lt_iff_lt-mul, mod-lt}
use blobs.Base.{
  ℕ, zero, suc, ◌+◌, ◌-◌, ◌*◌, ◌/◌, ◌%◌, ◌≤◌, ◌<◌, ◌≡◌, refl, ◌∙◌, true, false, ◌&&◌, ◌||◌, ◌==◌,
  ltb, leb, arith, Bool-cases, inl, inr,
}
use blobs.Staging.Bitmap.{BlockBitmap, is_marked, mark}
use blobs.Staging.Bitmap.Marks.{IsBitmap, is_marked-mark}
use blobs.Staging.Blocks.{block_count_for, valid_block_chunk, mark_blocks}

mark_count : (i : ℕ) (bb : BlockBitmap) → (mark i bb).block_count ≡ bb.block_count
unfolding mark
mark_count i bb = elim (Bool-cases (ltb i bb.block_count)) [ inl h ↦ rw h refl | inr h ↦ rw h refl ]

-- The loop marks the blocks from the first one on, as many as it is told, and no others.
pub is_marked-mark_blocks :
    (j first n : ℕ) (bb : BlockBitmap)
    → IsBitmap bb
    → IsBitmap (mark_blocks first n bb)
      × ((mark_blocks first n bb).block_count ≡ bb.block_count)
      × (is_marked j (mark_blocks first n bb)
          ≡ ((leb first j && (ltb j (first + n) && ltb j bb.block_count)) || is_marked j bb))
unfolding mark_blocks
is_marked-mark_blocks j first zero bb v = (v, refl, ground arith)
is_marked-mark_blocks j first (suc n) bb v =
    let (v', marked) = is_marked-mark j first bb v in
    let (w, count, rest) = is_marked-mark_blocks j (first + 1) n (mark first bb) v' in
    (w, count ∙ mark_count first bb, ground (arith, rest, marked, mark_count first bb))

-- The last block that a chunk touches, and the first.
abbrev pub last_block : ℕ → ℕ → ℕ → ℕ
last_block bs off len = (off + len - 1) / bs

-- A byte of the upload in one of the blocks of a valid chunk is a byte of the chunk.
pub valid_block_chunk-bytes :
    (bs size off len x : ℕ)
    → 0 < bs
    → 0 < len
    → off % bs ≡ 0
    → valid_block_chunk bs size off len ≡ true
    → x < size
    → off / bs ≤ x / bs
    → x / bs ≤ last_block bs off len
    → (off ≤ x) × (x < off + len)
unfolding valid_block_chunk
valid_block_chunk-bytes bs size off len x some_bs some_byte aligned valid below low high = (
  start,
  elim (Bool-cases (len % bs == 0)) [
    | inr odd ↦ ground (arith, odd, valid)
    | inl even ↦
        let chunk : len / bs * bs ≡ len = ground (arith, even, div-add-mod' len bs) in
        let last : last_block bs off len < off / bs + len / bs =
          (div-lt_iff_lt-mul some_bs).1
            (omega (arith, chunk, begins, add-mul (off / bs) (len / bs) bs)) in
        let stop : x < (off / bs + len / bs) * bs =
          (div-lt_iff_lt-mul some_bs).0 (omega (arith, last, high)) in
        omega (arith, stop, chunk, begins, add-mul (off / bs) (len / bs) bs)
  ],
)
  where
    begins : off / bs * bs ≡ off
    begins = omega (arith, aligned, div-add-mod' off bs)

    start : off ≤ x
    start = elim (Bool-cases (leb off x)) [
      | inl h ↦ ground (arith, h)
      | inr h ↦
          let before : x / bs < off / bs =
            (div-lt_iff_lt-mul some_bs).1 (ground (arith, h, begins)) in
          absurd (omega (arith, before, low))
    ]

-- Every byte of the upload is in one of its blocks.
pub block_count_for_lem : (bs size x : ℕ) → 0 < bs → x < size → x / bs < block_count_for size bs
unfolding block_count_for
block_count_for_lem bs size x some_bs below =
    (div-lt_iff_lt-mul some_bs).1 (elim (Bool-cases (size % bs == 0)) [
      | inl even ↦ rw (no_zero, even, block_count_for) (ground (arith, even, div-add-mod' size bs))
      | inr odd ↦
          rw (no_zero, odd, block_count_for)
            (ground
              (arith, odd, div-add-mod' size bs, add-mul (size / bs) 1 bs, mod-lt size some_bs))
    ])
  where
    no_zero : (bs == 0) ≡ false
    no_zero = ground arith
