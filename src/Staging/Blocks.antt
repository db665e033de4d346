-- ===== src/Staging/Blocks.antt =====
-- The arithmetic of block-aligned sessions (staging.go): blockCountFor, blockEndBoundary,
-- validBlockChunk, progress, the loop that marks the blocks of a chunk, and Ranges' reconstruction.
pub mod Progress
pub mod Chunks
use blobs.Base.{
  ℕ, zero, suc, ◌+◌, ◌-◌, ◌*◌, ◌/◌, ◌%◌, Bool, true, false, not, ◌&&◌, ◌==◌, ltb, leb,
  if◌then◌else◌, List, [], ◌∷◌, Option, none, some,
}
use blobs.Staging.Ranges.{ByteRange, RangeSet}
use blobs.Staging.Bitmap.{BlockBitmap, ones_count, is_marked, mark}

unfoldable pub block_count_for : ℕ → ℕ → ℕ
block_count_for size bs =
    if bs == 0 then 0 else (if size % bs == 0 then size / bs else size / bs + 1)

unfoldable pub block_end_boundary : ℕ → ℕ → ℕ → ℕ
block_end_boundary i bs expected_size = if ltb expected_size (i * bs) then expected_size else i * bs

unfoldable pub valid_block_chunk : ℕ → ℕ → ℕ → ℕ → Bool
valid_block_chunk bs expected_size offset size =
    if size % bs == 0
    then leb (offset + size) expected_size
    else (offset % bs == 0) && (offset + size == expected_size)

-- The loop over the blocks of a chunk, of which `n` are left.
unfoldable pub mark_blocks : ℕ → ℕ → BlockBitmap → BlockBitmap
mark_blocks first zero bb = bb
mark_blocks first (suc n) bb = mark_blocks (first + 1) n (mark first bb)

-- The bits that are set, in all words but the last and in the valid part of the last.
unfoldable pub count_set : ℕ → List ℕ → ℕ
count_set left [] = 0
count_set left (w ∷ []) = ones_count left w
count_set left (w ∷ v ∷ ws) = ones_count 64 w + count_set (left - 64) (v ∷ ws)

unfoldable pub progress : ℕ → ℕ → BlockBitmap → ℕ
progress bs expected_size bb =
    let bytes = count_set bb.block_count bb.blocks * bs in
    if bs == 0
    then 0
    else (if not (expected_size % bs == 0) && is_marked (bb.block_count - 1) bb
        then bytes - bs + expected_size % bs
        else bytes)

-- The loop of Ranges at block `i`, with `n` blocks left and the open range's start.
unfoldable pub ranges_from : ℕ → ℕ → BlockBitmap → ℕ → ℕ → Option ℕ → RangeSet
ranges_from bs expected_size bb i zero none = []
ranges_from bs expected_size bb i zero (some start) =
    record { start = start; stop = block_end_boundary i bs expected_size } ∷ []
ranges_from bs expected_size bb i (suc n) none =
    let opened = ranges_from bs expected_size bb (i + 1) n (some (i * bs)) in
    let skipped = ranges_from bs expected_size bb (i + 1) n none in
    if is_marked i bb then opened else skipped
ranges_from bs expected_size bb i (suc n) (some start) =
    let kept = ranges_from bs expected_size bb (i + 1) n (some start) in
    let closed =
      record { start = start; stop = block_end_boundary i bs expected_size }
      ∷ ranges_from bs expected_size bb (i + 1) n none in
    if is_marked i bb then kept else closed

unfoldable pub block_ranges : ℕ → ℕ → BlockBitmap → RangeSet
block_ranges bs expected_size bb =
    ranges_from bs expected_size bb 0 (block_count_for expected_size bs) none
