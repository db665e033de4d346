-- ===== src/Staging/Blocks/Progress.antt =====
-- What progress reports of the bitmap.
use native.Mathlib.Nat.{mul-le-mul_right, div-add-mod', add-mul}
use blobs.Base.{
  ℕ, zero, suc, ◌+◌, ◌-◌, ◌*◌, ◌/◌, ◌%◌, ◌≤◌, ◌<◌, ◌≡◌, refl, sym, ap, ◌∙◌, true, false, ◌==◌, ltb,
  List, [], ◌∷◌, length, arith, Bool-cases, inl, inr,
}
use blobs.Staging.Bitmap.{
  BlockBitmap, test_bit, all_set, ones_count, is_marked, words_complete, is_complete,
}
use blobs.Staging.Bitmap.Marks.{IsBitmap, bit_of, bit_of_here, bit_of_later, bit_of-words_complete}
use blobs.Staging.Blocks.{block_count_for, count_set, progress}

ones_count_bound : (n w : ℕ) → ones_count n w ≤ n
unfolding ones_count
ones_count_bound zero w = omega arith
ones_count_bound (suc n) w = omega (arith, ones_count_bound n (w / 2))

ones_count-all_set : (n w : ℕ) → all_set n w ≡ true → ones_count n w ≡ n
unfolding ones_count all_set
ones_count-all_set zero w h = refl
ones_count-all_set (suc n) w h = ground (arith, ones_count-all_set n (w / 2))

ones_count-test_bit : (i n w : ℕ) → i < n → test_bit i w ≡ false → ones_count n w < n
unfolding ones_count test_bit
ones_count-test_bit i zero w lt h = absurd (omega arith)
ones_count-test_bit zero (suc n) w lt h = ground (arith, ones_count_bound n (w / 2))
ones_count-test_bit (suc i) (suc n) w lt h =
    omega (arith, ones_count-test_bit i n (w / 2) (omega arith) h)

count_set_bound : (left : ℕ) (ws : List ℕ) → length ws ≡ (left + 63) / 64 → count_set left ws ≤ left
unfolding count_set
count_set_bound left [] v = omega arith
count_set_bound left (w ∷ []) v = ones_count_bound left w
count_set_bound left (w ∷ u ∷ ws) v =
    omega (arith, ones_count_bound 64 w, count_set_bound (left - 64) (u ∷ ws) (omega arith))

count_set-words_complete :
    (left : ℕ) (ws : List ℕ)
    → length ws ≡ (left + 63) / 64
    → words_complete left ws ≡ true
    → count_set left ws ≡ left
unfolding count_set words_complete
count_set-words_complete left [] v h = omega arith
count_set-words_complete left (w ∷ []) v h = ones_count-all_set left w h
count_set-words_complete left (w ∷ u ∷ ws) v h = omega (
  arith,
  ones_count-all_set 64 w (ground (arith, h)),
  count_set-words_complete (left - 64) (u ∷ ws) (omega arith) (ground (arith, h)),
)

count_set-bit_of :
    (i left : ℕ) (ws : List ℕ)
    → length ws ≡ (left + 63) / 64
    → i < left
    → bit_of i ws ≡ false
    → count_set left ws < left
unfolding count_set
count_set-bit_of i left [] v lt h = absurd (omega arith)
count_set-bit_of i left (w ∷ []) v lt h =
    ones_count-test_bit i left w lt (sym (bit_of_here i w [] (omega arith)) ∙ h)
count_set-bit_of i left (w ∷ u ∷ ws) v lt h = elim (Bool-cases (ltb i 64)) [
  | inl low ↦ omega (
    arith,
    count_set_bound (left - 64) (u ∷ ws) (omega arith),
    ones_count-test_bit i 64 w (ground (arith, low))
        (sym (bit_of_here i w (u ∷ ws) (ground (arith, low))) ∙ h),
  )
  | inr high ↦
      let shift : 64 + (i - 64) ≡ i = ground (arith, high) in
      omega (
        arith,
        ones_count_bound 64 w,
        count_set-bit_of (i - 64) (left - 64) (u ∷ ws) (omega arith) (ground (arith, high)) (
            sym (bit_of_later (i - 64) w (u ∷ ws))
            ∙ ap (λ (j : ℕ). bit_of j (w ∷ u ∷ ws)) shift
            ∙ h),
      )
]

-- With a whole number of blocks.
progress_even :
    (bs size : ℕ) (bb : BlockBitmap)
    → 0 < bs
    → size % bs ≡ 0
    → IsBitmap bb
    → bb.block_count ≡ block_count_for size bs
    → (progress bs size bb ≤ size) × (is_complete bb ≡ true → progress bs size bb ≡ size)
unfolding progress is_complete block_count_for
progress_even bs size bb low even v count =
    let c : ℕ = count_set bb.block_count bb.blocks in
    let whole : size / bs * bs ≡ size = omega (arith, div-add-mod' size bs) in
    let blocks : bb.block_count ≡ size / bs = ground (arith, count) in
    let value : progress bs size bb ≡ c * bs = ground arith in
    let bound : c ≤ size / bs = omega (arith, blocks, count_set_bound bb.block_count bb.blocks v) in
    (
      omega (arith, value, whole, mul-le-mul_right bs bound),
      λ h.
          value
          ∙ ap (λ (k : ℕ). k * bs) (count_set-words_complete bb.block_count bb.blocks v h ∙ blocks)
          ∙ whole,
    )

-- With a shorter last block.
progress_odd :
    (bs size : ℕ) (bb : BlockBitmap)
    → 0 < bs
    → 0 < size % bs
    → IsBitmap bb
    → bb.block_count ≡ block_count_for size bs
    → (progress bs size bb ≤ size) × (is_complete bb ≡ true → progress bs size bb ≡ size)
unfolding progress is_complete block_count_for is_marked bit_of
progress_odd bs size bb low odd v count =
    let c : ℕ = count_set bb.block_count bb.blocks in
    let whole : size / bs * bs + size % bs ≡ size = div-add-mod' size bs in
    let blocks : bb.block_count ≡ size / bs + 1 = ground (arith, count) in
    let next : (size / bs + 1) * bs ≡ size / bs * bs + bs =
      omega (arith, add-mul (size / bs) 1 bs) in
    elim (Bool-cases (is_marked (bb.block_count - 1) bb)) [
      | inl marked ↦
          let value : progress bs size bb ≡ c * bs - bs + size % bs = ground (arith, marked) in
          let bound : c ≤ size / bs + 1 =
            omega (arith, blocks, count_set_bound bb.block_count bb.blocks v) in
          (
            omega (arith, value, whole, next, mul-le-mul_right bs bound),
            λ h.
                let full : c * bs ≡ (size / bs + 1) * bs =
                  ap (λ (k : ℕ). k * bs)
                    (count_set-words_complete bb.block_count bb.blocks v h ∙ blocks) in
                omega (arith, value, whole, next, full),
          )
      | inr unmarked ↦
          let value : progress bs size bb ≡ c * bs = ground (arith, unmarked) in
          let last : bb.block_count - 1 < bb.block_count = omega (arith, blocks) in
          let bound : c ≤ size / bs = omega (
            arith,
            blocks,
            count_set-bit_of (bb.block_count - 1) bb.block_count bb.blocks v last unmarked,
          ) in
          (
            omega (arith, value, whole, mul-le-mul_right bs bound),
            λ h. absurd (
                ground (
                  arith,
                  unmarked,
                  bit_of-words_complete (bb.block_count - 1) _ bb.blocks v h last,
                )),
          )
    ]

-- The progress of a block-aligned session never exceeds the size of the upload, and is that size
-- when the bitmap is complete, also where the last block is shorter than the others.
pub progress_lem :
    (bs size : ℕ) (bb : BlockBitmap)
    → 0 < bs
    → IsBitmap bb
    → bb.block_count ≡ block_count_for size bs
    → (progress bs size bb ≤ size) × (is_complete bb ≡ true → progress bs size bb ≡ size)
progress_lem bs size bb low v count = elim (Bool-cases (size % bs == 0)) [
  | inl even ↦ progress_even bs size bb low (ground (arith, even)) v count
  | inr odd ↦ progress_odd bs size bb low (ground (arith, odd)) v count
]
