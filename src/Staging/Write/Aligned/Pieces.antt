-- ===== src/Staging/Write/Aligned/Pieces.antt =====
-- The piece hashes of a session with blocks: their verification stays inside its slices.
use native.Mathlib.Nat.{div-add-mod', add-mul, mul-le-mul_right, div-eq_of_lt-le, div-lt_iff_lt-mul}
use blobs.Base.{
  ℕ, zero, suc, ◌+◌, ◌-◌, ◌*◌, ◌/◌, ◌%◌, ◌≤◌, ◌<◌, ◌≡◌, ◌⊎◌, inl, inr, refl, sym, ap, ◌∙◌, true,
  false, ◌==◌, ltb, leb, List, [], ◌∷◌, none, some, length, arith, Bool-cases, bytes_eq, lt→ltb,
}
use blobs.Base.Bytes.{Bytes, slice}
use blobs.Staging.Bitmap.{BlockBitmap, is_marked, mark, change_word, set_bit}
use blobs.Staging.Blocks.{block_count_for, valid_block_chunk}
use blobs.Volume.Address.{hex}
use blobs.Staging.Session.Options.{HasPieces}
use blobs.Staging.Write.{piece_hash_mismatch}
use blobs.Staging.Write.Aligned.{piece_at, chunk_blocks, verify_pieces}

piece_at_inside : (i : ℕ) (ps : List Bytes) → i < length ps → (p : Bytes) × (piece_at i ps ≡ some p)
unfolding piece_at
piece_at_inside i [] h = absurd (omega arith)
piece_at_inside zero (p ∷ ps) h = (p, refl)
piece_at_inside (suc i) (p ∷ ps) h = piece_at_inside i ps (omega arith)

le_of_mul : (a b c : ℕ) → 0 < c → a * c ≤ b * c → a ≤ b
le_of_mul a b c h le = elim (Bool-cases (leb a b)) [
  | inl small ↦ ground (arith, small)
  | inr big ↦ absurd (omega (arith, le, h, over (ground (arith, big))))
]
  where
    over : b < a → b * c + c ≤ a * c
    over lt =
        let next : b + 1 ≤ a = omega (arith, lt) in
        omega (arith, add-mul b 1 c, mul-le-mul_right c next)

length-change_word : (f : ℕ → ℕ) (i : ℕ) (ws : List ℕ) → length (change_word f i ws) ≡ length ws
unfolding change_word
length-change_word f i [] = refl
length-change_word f zero (w ∷ ws) = refl
length-change_word f (suc i) (w ∷ ws) = ap suc (length-change_word f i ws)

length-mark : (i : ℕ) (bb : BlockBitmap) → length (mark i bb).blocks ≡ length bb.blocks
unfolding mark
length-mark i bb = elim (Bool-cases (ltb i bb.block_count)) [
  | inl e ↦ rw e (length-change_word (set_bit (i % 64)) (i / 64) bb.blocks)
  | inr e ↦ rw e refl
]

module _ (sha256 : Bytes → Bytes) where
  verify_pieces_inside :
      (bs : ℕ) (pieces : List Bytes) (d : Bytes) (b start n : ℕ) (verified : BlockBitmap)
      → start + n * bs ≤ length d
      → b + n ≤ length pieces
      → b + n ≤ 64 * length verified.blocks
      → ((verify_pieces sha256 bs pieces d b start n verified).1 ≡ none)
        ⊎ ((verify_pieces sha256 bs pieces d b start n verified).1 ≡ some piece_hash_mismatch)
  unfolding verify_pieces
  verify_pieces_inside bs pieces d b start zero verified h k ws = inl refl
  verify_pieces_inside bs pieces d b start (suc n) verified h k ws =
      let more : (n + 1) * bs ≡ n * bs + bs = omega (arith, add-mul n 1 bs) in
      let same : suc n * bs ≡ n * bs + bs = omega (arith, more) in
      let fits : ltb (length d) (start + bs) ≡ false = ground (arith, h, same) in
      let (p, at) = piece_at_inside b pieces (omega (arith, k)) in
      let word : ltb (b / 64) (length verified.blocks) ≡ true =
        lt→ltb _ _ ((div-lt_iff_lt-mul some_words).1 (omega (arith, ws))) in
      let later = λ (v : BlockBitmap) (count : length v.blocks ≡ length verified.blocks).
        verify_pieces_inside bs pieces d (b + 1) (start + bs) n v (omega (arith, h, same))
          (omega (arith, k)) (omega (arith, ws, count)) in
      elim (Bool-cases (is_marked b verified)) [
        | inl old ↦ rw (word, old, verify_pieces) (later verified refl)
        | inr new ↦ elim (Bool-cases (bytes_eq (hex (sha256 (slice start bs d))) p)) [
          | inl good ↦
              rw (word, new, fits, at, verify_pieces, good)
                (later (mark b verified) (length-mark b verified))
          | inr bad ↦ rw (word, new, fits, at, verify_pieces, bad) (inr refl)
        ]
      ]
    where
      some_words : 0 < 64
      some_words = omega arith

  -- The blocks of a chunk that ends where block `m` begins.
  chunk_blocks_whole :
      (bs off len m : ℕ)
      → 0 < bs
      → 0 < len
      → off % bs ≡ 0
      → off + len ≡ m * bs
      → (chunk_blocks bs off len * bs ≡ len) × (off / bs + chunk_blocks bs off len ≡ m)
  unfolding chunk_blocks
  chunk_blocks_whole bs off len m some_bs some_byte aligned ends =
      let begins : off / bs * bs ≡ off = omega (arith, aligned, div-add-mod' off bs) in
      let before : off / bs < m = (div-lt_iff_lt-mul some_bs).1 (omega (arith, ends)) in
      let below : (m - 1) * bs + bs ≡ m * bs =
        omega (arith, before, add-mul (m - 1) 1 bs, ap (λ (k : ℕ). k * bs) (one_more m before)) in
      let last : (off + len - 1) / bs ≡ m - 1 =
        div-eq_of_lt-le bs (omega (arith, ends, below, some_bs))
          (omega (arith, ends, below, some_bs, add-mul (m - 1) 1 bs)) in
      let blocks : (off + len - 1) / bs + 1 - off / bs ≡ m - off / bs =
        omega (arith, last, before) in
      let back : m - off / bs + off / bs ≡ m = omega (arith, before) in
      let parts : (m - off / bs) * bs + off / bs * bs ≡ m * bs =
        sym (add-mul (m - off / bs) (off / bs) bs) ∙ ap (λ (k : ℕ). k * bs) back in
      rw (blocks, chunk_blocks) (omega (arith, parts, begins, ends), omega (arith, before))
    where
      one_more : (m : ℕ) {q : ℕ} → q < m → m - 1 + 1 ≡ m
      one_more m h = omega (arith, h)

  -- The blocks of a valid chunk of an upload whose size is a number of blocks.
  chunk_blocks_exact :
      (bs size off len : ℕ)
      → 0 < bs
      → 0 < len
      → size % bs ≡ 0
      → off % bs ≡ 0
      → valid_block_chunk bs size off len ≡ true
      → (chunk_blocks bs off len * bs ≡ len)
        × (off / bs + chunk_blocks bs off len ≤ block_count_for size bs)
  unfolding chunk_blocks valid_block_chunk block_count_for
  chunk_blocks_exact bs size off len some_bs some_byte even aligned valid =
      let whole : size / bs * bs ≡ size = omega (arith, even, div-add-mod' size bs) in
      let begins : off / bs * bs ≡ off = omega (arith, aligned, div-add-mod' off bs) in
      let count : block_count_for size bs ≡ size / bs = ground (arith, some_bs, even) in
      elim (Bool-cases (len % bs == 0)) [
        | inr odd ↦
            let (exact, m) =
              chunk_blocks_whole bs off len (size / bs) some_bs some_byte aligned
                (ground (arith, valid, odd, whole)) in
            (exact, omega (arith, m, count))
        | inl full ↦
            let chunk : len / bs * bs ≡ len = ground (arith, full, div-add-mod' len bs) in
            let (exact, m) =
              chunk_blocks_whole bs off len (off / bs + len / bs) some_bs some_byte aligned
                (omega (arith, begins, chunk, add-mul (off / bs) (len / bs) bs)) in
            let inside : off / bs + len / bs ≤ size / bs =
              le_of_mul (off / bs + len / bs) (size / bs) bs some_bs (
                ground
                  (arith, valid, full, begins, chunk, whole, add-mul (off / bs) (len / bs) bs)) in
            (exact, omega (arith, m, count, inside))
      ]

  -- Where a session has piece hashes as Begin accepts them, and a bitmap of verified blocks with a
  -- bit for each block, verifying a valid, aligned chunk ends with success or with the error for a
  -- wrong piece hash: no index into the bitmap's words or the hashes and no slice of the chunk is
  -- out of range.
  pub verify_pieces-HasPieces :
      (size bs off : ℕ) (pieces : List Bytes) (d : Bytes) (verified : BlockBitmap)
      → HasPieces size bs pieces
      → 0 < length d
      → off % bs ≡ 0
      → valid_block_chunk bs size off (length d) ≡ true
      → block_count_for size bs ≤ 64 * length verified.blocks
      → let checked =
          verify_pieces sha256 bs pieces d (off / bs) 0 (chunk_blocks bs off (length d)) verified in
        (checked.1 ≡ none) ⊎ (checked.1 ≡ some piece_hash_mismatch)
  verify_pieces-HasPieces size bs off pieces d verified (some_bs, even, count, _) some_byte aligned
        valid words =
      let (exact, inside) =
        chunk_blocks_exact bs size off (length d) some_bs some_byte even aligned valid in
      verify_pieces_inside bs pieces d (off / bs) 0 (chunk_blocks bs off (length d)) verified
        (omega (arith, exact)) (omega (arith, inside, count)) (omega (arith, inside, words))
