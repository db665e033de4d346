-- ===== src/Staging/Session/Options.antt =====
-- What Begin has checked of a session that it makes.
use blobs.Base.{
  ℕ, zero, suc, ◌%◌, ◌<◌, ◌≡◌, ◌⊎◌, inl, inr, refl, sym, ap, ◌∙◌, true, not, ◌&&◌, ◌||◌, ◌==◌, List,
  [], ◌∷◌, map, length, All, arith, Bool-cases,
}
use blobs.Base.Bytes.{Bytes}
use blobs.Base.Int.{ℤ, pos, negsuc}
use blobs.Errors.{ok, ok_inj, Result-cases}
use blobs.Staging.Blocks.{block_count_for}
use blobs.Staging.Session.{
  SessionMeta, BeginOptions, to_lower, all_hashes, check_blocks, unsigned, begin_meta,
}

-- Piece hashes come with blocks of one size, one hash of sixty-four characters for each.
abbrev pub HasPieces : ℕ → ℕ → List Bytes → Type 0
HasPieces size bs pieces =
    (0 < bs)
    × (size % bs ≡ 0)
    × (length pieces ≡ block_count_for size bs)
    × All (λ h. length h ≡ 64) pieces

all_hashes-All : (hs : List Bytes) → all_hashes hs ≡ true → All (λ h. length h ≡ 64) hs
unfolding all_hashes
all_hashes-All [] v = tt
all_hashes-All (h ∷ hs) v = (ground arith, all_hashes-All hs (ground arith))

length-map : (f : Bytes → Bytes) (hs : List Bytes) → length (map f hs) ≡ length hs
length-map f [] = refl
length-map f (h ∷ hs) = ap suc (length-map f hs)

length-to_lower : (s : Bytes) → length (to_lower s) ≡ length s
unfolding to_lower
length-to_lower [] = refl
length-to_lower (c ∷ s) = ap suc (length-to_lower s)

check_blocks-HasPieces :
    (size bs : ℕ) (pieces : List Bytes)
    → check_blocks size bs pieces ≡ ok tt
    → 0 < length pieces
    → (0 < size) × HasPieces size bs (map to_lower pieces)
unfolding check_blocks
check_blocks-HasPieces size zero pieces h some_piece = absurd (ground (arith, h))
check_blocks-HasPieces size (suc bs) pieces h some_piece =
    let hashes : all_hashes (map to_lower pieces) ≡ true = ground (arith, h, some_piece) in
    (
      ground (arith, h, some_piece),
      (
        omega arith,
        ground (arith, h, some_piece),
        length-map to_lower pieces ∙ ground (arith, h, some_piece),
        all_hashes-All (map to_lower pieces) hashes,
      ),
    )

check_blocks-size :
    (size bs : ℕ) (pieces : List Bytes) → check_blocks size bs pieces ≡ ok tt → 0 < bs → 0 < size
unfolding check_blocks
check_blocks-size size zero pieces h some_bs = absurd (omega arith)
check_blocks-size size (suc bs) pieces h some_bs = ground (arith, h)

ℤ-cases : (z : ℤ) → ((n : ℕ) × (z ≡ pos n)) ⊎ ((n : ℕ) × (z ≡ negsuc n))
ℤ-cases (pos n) = inl (n, refl)
ℤ-cases (negsuc n) = inr (n, refl)

-- Where Begin accepts its options: the namespace and the key are not empty, the sizes that were
-- given were not negative and are the session's, a whole-file checksum has sixty-four characters,
-- no byte has been received, a session with blocks has a size, and piece hashes are one of
-- sixty-four characters for each block, of blocks that divide the size.
pub begin_meta-ok :
    (id : Bytes) (now : ℕ) (ns_id key : Bytes) (opts : BeginOptions) (meta : SessionMeta)
    → begin_meta id now ns_id key opts ≡ ok meta
    → (0 < length meta.namespace_id)
      × (0 < length meta.key)
      × (opts.expected_size ≡ pos meta.expected_size)
      × (opts.block_size ≡ pos meta.block_size)
      × (0 < length meta.expected_sha256 → length meta.expected_sha256 ≡ 64)
      × (meta.ranges ≡ [])
      × (0 < meta.block_size → 0 < meta.expected_size)
      × (0 < length meta.piece_hashes
          → HasPieces meta.expected_size meta.block_size meta.piece_hashes)
unfolding begin_meta unsigned
begin_meta-ok id now ns_id key opts meta =
    elim (Bool-cases ((length ns_id == 0) || (length key == 0))) [
      | inl unnamed ↦ rw unnamed (λ e. absurd (cc))
      | inr named ↦
          elim (Bool-cases (
            not (length opts.expected_sha256 == 0)
            && not (length (to_lower opts.expected_sha256) == 64))) [
              | inl bad ↦ rw (named, bad) (λ e. absurd (cc))
              | inr hashed ↦ elim (ℤ-cases opts.expected_size) [
                | inr (n, negative) ↦
                    rw (named, hashed, negative, begin_meta, unsigned) (λ e. absurd (cc))
                | inl (size, sized) ↦ elim (ℤ-cases opts.block_size) [
                  | inr (n, negative) ↦
                      rw (named, hashed, sized, negative, begin_meta, unsigned) (λ e. absurd (cc))
                  | inl (bs, blocks) ↦
                      elim (Result-cases (check_blocks size bs opts.piece_hashes)) [
                        | inr (e, bad) ↦
                            rw (named, hashed, sized, blocks, begin_meta, unsigned, bad)
                              (λ e. absurd (cc))
                        | inl (u, good) ↦
                            rw (named, hashed, sized, blocks, begin_meta, unsigned, good)
                              (λ e. rw (sym (ok_inj e)) (
                                ground (arith, named),
                                ground (arith, named),
                                refl,
                                refl,
                                λ some_hash. ground (
                                  arith,
                                  hashed,
                                  some_hash,
                                  length-to_lower opts.expected_sha256,
                                ),
                                refl,
                                check_blocks-size size bs opts.piece_hashes good,
                                λ some_piece.
                                    (check_blocks-HasPieces size bs opts.piece_hashes good (
                                      omega (
                                        arith,
                                        some_piece,
                                        length-map to_lower opts.piece_hashes,
                                      ))).1,
                              ))
                      ]
                ]
              ]
            ]
    ]
