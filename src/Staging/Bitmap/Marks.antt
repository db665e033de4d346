-- ===== src/Staging/Bitmap/Marks.antt =====
-- Which blocks a bitmap has.
use blobs.Base.{
  ℕ, zero, suc, ◌+◌, ◌-◌, ◌*◌, ◌/◌, ◌%◌, ◌<◌, ◌≡◌, ◌↔◌, refl, sym, ap, ◌∙◌, Bool, true, false, ◌&&◌,
  ◌||◌, ◌==◌, ltb, if◌then◌else◌, List, [], ◌∷◌, length, replicate, arith, Bool-cases, inl, inr,
}
use blobs.Staging.Bitmap.{
  BlockBitmap, test_bit, set_bit, all_set, word_at, change_word, is_marked, mark, words_complete,
  is_complete, new_block_bitmap,
}

-- As many words as the block count needs.
abbrev pub IsBitmap : BlockBitmap → Type 0
IsBitmap bb = length bb.blocks ≡ (bb.block_count + 63) / 64

test_bit-set_bit : (j i w : ℕ) → test_bit j (set_bit i w) ≡ ((i == j) || test_bit j w)
unfolding test_bit set_bit
test_bit-set_bit zero zero w = ground arith
test_bit-set_bit zero (suc i) w = ground arith
test_bit-set_bit (suc j) zero w = ground arith
test_bit-set_bit (suc j) (suc i) w =
    let half : (2 * set_bit i (w / 2) + w % 2) / 2 ≡ set_bit i (w / 2) = omega arith in
    rw half (ground (arith, test_bit-set_bit j i (w / 2)))

word_at-change_word :
    (f : ℕ → ℕ) (j i : ℕ) (ws : List ℕ)
    → i < length ws
    → word_at j (change_word f i ws) ≡ (if i == j then f (word_at j ws) else word_at j ws)
unfolding word_at change_word
word_at-change_word f j i [] h = absurd (omega arith)
word_at-change_word f zero zero (w ∷ ws) h = ground arith
word_at-change_word f (suc j) zero (w ∷ ws) h = ground arith
word_at-change_word f zero (suc i) (w ∷ ws) h = ground arith
word_at-change_word f (suc j) (suc i) (w ∷ ws) h =
    ground (arith, word_at-change_word f j i ws (omega arith))

length-change_word : (f : ℕ → ℕ) (i : ℕ) (ws : List ℕ) → length (change_word f i ws) ≡ length ws
unfolding change_word
length-change_word f i [] = refl
length-change_word f zero (w ∷ ws) = refl
length-change_word f (suc i) (w ∷ ws) = ap suc (length-change_word f i ws)

-- Marking a block of the upload sets its bit and no other; a block behind the last changes nothing.
pub is_marked-mark :
    (j i : ℕ) (bb : BlockBitmap)
    → IsBitmap bb
    → IsBitmap (mark i bb)
      × (is_marked j (mark i bb) ≡ ((ltb i bb.block_count && (i == j)) || is_marked j bb))
unfolding is_marked mark
is_marked-mark j i bb v = elim (Bool-cases (ltb i bb.block_count)) [
  | inl h ↦ rw h (
    length-change_word _ (i / 64) bb.blocks ∙ v,
    ground (
      arith,
      h,
      word_at-change_word (set_bit (i % 64)) (j / 64) (i / 64) bb.blocks (ground (arith, v, h)),
      test_bit-set_bit (j % 64) (i % 64) (word_at (j / 64) bb.blocks),
    ),
  )
  | inr h ↦ rw h (v, refl)
]

test_bit-all_set : (i n w : ℕ) → all_set n w ≡ true → i < n → test_bit i w ≡ true
unfolding all_set test_bit
test_bit-all_set i zero w h lt = absurd (omega arith)
test_bit-all_set zero (suc n) w h lt = ground arith
test_bit-all_set (suc i) (suc n) w h lt = test_bit-all_set i n (w / 2) (ground arith) (omega arith)

all_set-test_bit : (n w : ℕ) → ((i : ℕ) → i < n → test_bit i w ≡ true) → all_set n w ≡ true
unfolding all_set test_bit
all_set-test_bit zero w h = refl
all_set-test_bit (suc n) w h =
    ground (arith, h 0 (omega arith), all_set-test_bit n (w / 2) λ i lt. h (suc i) (omega arith))

-- The bit of a block, as is_marked reads it.
unfoldable pub bit_of : ℕ → List ℕ → Bool
bit_of i ws = test_bit (i % 64) (word_at (i / 64) ws)

pub bit_of_here : (i w : ℕ) (ws : List ℕ) → i < 64 → bit_of i (w ∷ ws) ≡ test_bit i w
unfolding bit_of word_at
bit_of_here i w ws h =
    let low : i % 64 ≡ i = omega arith in
    let first : i / 64 ≡ 0 = omega arith in rw low (rw first refl)

pub bit_of_later : (i w : ℕ) (ws : List ℕ) → bit_of (64 + i) (w ∷ ws) ≡ bit_of i ws
unfolding bit_of word_at
bit_of_later i w ws =
    let low : (64 + i) % 64 ≡ i % 64 = omega arith in
    let next : (64 + i) / 64 ≡ suc (i / 64) = omega arith in rw low (rw next refl)

pub bit_of-words_complete :
    (i left : ℕ) (ws : List ℕ)
    → length ws ≡ (left + 63) / 64
    → words_complete left ws ≡ true
    → i < left
    → bit_of i ws ≡ true
unfolding words_complete
bit_of-words_complete i left [] v h lt = absurd (omega arith)
bit_of-words_complete i left (w ∷ []) v h lt =
    bit_of_here i w [] (omega arith) ∙ test_bit-all_set i left w h lt
bit_of-words_complete i left (w ∷ u ∷ ws) v h lt = elim (Bool-cases (ltb i 64)) [
  | inl low ↦
      bit_of_here i w (u ∷ ws) (ground arith)
      ∙ test_bit-all_set i 64 w (ground (arith, h)) (ground (arith, low))
  | inr high ↦
      let shift : i ≡ 64 + (i - 64) = ground (arith, high) in
      rw shift (
        bit_of_later (i - 64) w (u ∷ ws)
        ∙ bit_of-words_complete (i - 64) (left - 64) (u ∷ ws) (omega arith) (ground (arith, h))
            (ground (arith, high)))
]

words_complete-bit_of :
    (left : ℕ) (ws : List ℕ)
    → length ws ≡ (left + 63) / 64
    → ((i : ℕ) → i < left → bit_of i ws ≡ true)
    → words_complete left ws ≡ true
unfolding words_complete
words_complete-bit_of left [] v h = refl
words_complete-bit_of left (w ∷ []) v h =
    all_set-test_bit left w λ i lt. sym (bit_of_here i w [] (omega arith)) ∙ h i lt
words_complete-bit_of left (w ∷ u ∷ ws) v h =
    let first : all_set 64 w ≡ true =
      all_set-test_bit 64 w λ i lt. sym (bit_of_here i w (u ∷ ws) lt) ∙ h i (omega arith) in
    let rest : words_complete (left - 64) (u ∷ ws) ≡ true =
      words_complete-bit_of (left - 64) (u ∷ ws) (omega arith)
        λ i lt. sym (bit_of_later i w (u ∷ ws)) ∙ h (64 + i) (omega arith) in
    ground (arith, first, rest)

-- The bitmap is complete exactly where every block of the upload is marked.
pub is_complete-is_marked_iff :
    (bb : BlockBitmap)
    → IsBitmap bb
    → (is_complete bb ≡ true) ↔ ((i : ℕ) → i < bb.block_count → is_marked i bb ≡ true)
unfolding is_complete is_marked bit_of
is_complete-is_marked_iff bb v = (
  λ h i lt. bit_of-words_complete i bb.block_count bb.blocks v h lt,
  words_complete-bit_of bb.block_count bb.blocks v,
)

test_bit_zero : (i : ℕ) → test_bit i 0 ≡ false
unfolding test_bit
test_bit_zero zero = ground arith
test_bit_zero (suc i) = rw zero_half (test_bit_zero i)
  where
    zero_half : 0 / 2 ≡ 0
    zero_half = omega arith

word_at-replicate : (i n : ℕ) → word_at i (replicate n 0) ≡ 0
unfolding word_at
word_at-replicate i zero = refl
word_at-replicate zero (suc n) = refl
word_at-replicate (suc i) (suc n) = word_at-replicate i n

-- A new bitmap has no block.
pub is_marked-new_block_bitmap : (i n : ℕ) → is_marked i (new_block_bitmap n) ≡ false
unfolding is_marked new_block_bitmap
is_marked-new_block_bitmap i n =
    rw (word_at-replicate (i / 64) ((n + 63) / 64)) (test_bit_zero (i % 64))
