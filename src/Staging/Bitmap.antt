-- ===== src/Staging/Bitmap.antt =====
-- blockBitmap (staging.go): one bit for each block, in words of 64. The bit operations on a uint64
-- are by recursion on the bit's number, so no power of two is written; the atomic loop of mark is
-- one step.
pub mod Marks
use blobs.Base.{
  ℕ, zero, suc, ◌+◌, ◌-◌, ◌*◌, ◌/◌, ◌%◌, Bool, true, false, ◌&&◌, ◌==◌, ltb, if◌then◌else◌, List,
  [], ◌∷◌, length, replicate,
}

pub record BlockBitmap : Type 0 where
  pub blocks : List ℕ
  pub block_count : ℕ

-- `w & (1 << bit) != 0`.
unfoldable pub test_bit : ℕ → ℕ → Bool
test_bit zero w = w % 2 == 1
test_bit (suc bit) w = test_bit bit (w / 2)

-- `w | (1 << bit)`.
unfoldable pub set_bit : ℕ → ℕ → ℕ
set_bit zero w = if w % 2 == 1 then w else w + 1
set_bit (suc bit) w = 2 * set_bit bit (w / 2) + w % 2

-- `w & mask == mask` for the mask of the low `n` bits.
unfoldable pub all_set : ℕ → ℕ → Bool
all_set zero w = true
all_set (suc n) w = (w % 2 == 1) && all_set n (w / 2)

-- bits.OnesCount64 of the low `n` bits.
unfoldable pub ones_count : ℕ → ℕ → ℕ
ones_count zero w = 0
ones_count (suc n) w = w % 2 + ones_count n (w / 2)

unfoldable pub new_block_bitmap : ℕ → BlockBitmap
new_block_bitmap num_blocks = record {
  blocks = replicate ((num_blocks + 63) / 64) 0;
  block_count = num_blocks;
}

unfoldable pub word_at : ℕ → List ℕ → ℕ
word_at i [] = 0
word_at zero (w ∷ ws) = w
word_at (suc i) (w ∷ ws) = word_at i ws

unfoldable pub change_word : (ℕ → ℕ) → ℕ → List ℕ → List ℕ
change_word f i [] = []
change_word f zero (w ∷ ws) = f w ∷ ws
change_word f (suc i) (w ∷ ws) = w ∷ change_word f i ws

unfoldable pub is_marked : ℕ → BlockBitmap → Bool
is_marked i bb = test_bit (i % 64) (word_at (i / 64) bb.blocks)

unfoldable pub mark : ℕ → BlockBitmap → BlockBitmap
mark i bb =
    if ltb i bb.block_count
    then record bb { blocks = change_word (set_bit (i % 64)) (i / 64) bb.blocks }
    else bb

-- The words but the last are full, and the last is full up to the block count.
unfoldable pub words_complete : ℕ → List ℕ → Bool
words_complete left [] = true
words_complete left (w ∷ []) = all_set left w
words_complete left (w ∷ v ∷ ws) = all_set 64 w && words_complete (left - 64) (v ∷ ws)

unfoldable pub is_complete : BlockBitmap → Bool
is_complete bb = words_complete bb.block_count bb.blocks
