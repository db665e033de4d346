-- ===== src/Staging/Write/Aligned.antt =====
-- writeChunkAligned and writeChunkAlignedStream (staging.go), on one session.
pub mod Blocks
pub mod Pieces
use mathlib.Core.List.{flatten}
use blobs.Base.{
  ℕ, zero, suc, ◌+◌, ◌-◌, ◌*◌, ◌/◌, ◌%◌, Bool, true, false, not, ◌&&◌, ◌||◌, ◌==◌, ltb, leb,
  if◌then◌else◌, List, [], ◌∷◌, ◌++◌, Option, none, some, length, bytes_eq,
}
use blobs.Base.Bytes.{Bytes, slice, write_at}
use blobs.Errors.{Error, failed, wrapped, panicked}
use blobs.Staging.Bitmap.{BlockBitmap, is_marked, mark}
use blobs.Staging.Blocks.{valid_block_chunk, mark_blocks}
use blobs.Staging.Session.{SessionState, Staged, session_not_found, maybe_flush_meta}
use blobs.Volume.Address.{hex}
use blobs.Staging.Write.{
  ChunkStream, Written, write_reads, state_progress, touch, checksum_ok, checksum_mismatch,
  block_alignment, piece_hash_mismatch, exceeds_expected_size,
}

unfoldable pub piece_at : ℕ → List Bytes → Option Bytes
piece_at i [] = none
piece_at zero (p ∷ ps) = some p
piece_at (suc i) (p ∷ ps) = piece_at i ps

-- A return of an aligned path, with the progress of the session at that point.
unfoldable pub reply : Staged → Option Error → Written
reply s e = record { staged = s; total = state_progress s; error = e }

-- The error for a chunk that validBlockChunk refuses.
unfoldable pub chunk_refusal : ℕ → ℕ → Error
chunk_refusal bs len = if len % bs == 0 then exceeds_expected_size else block_alignment

-- The blocks of a chunk, from the first one to the last.
unfoldable pub chunk_blocks : ℕ → ℕ → ℕ → ℕ
chunk_blocks bs offset len = (offset + len - 1) / bs + 1 - offset / bs

unfoldable pub mark_chunk : ℕ → ℕ → Staged → Staged
mark_chunk offset len s =
    let bs = s.state.info.block_size in
    record s {
      state = record s.state {
        bitmap = mark_blocks (offset / bs) (chunk_blocks bs offset len) s.state.bitmap;
      };
    }

-- writeChunkAlignedStream, from the end of the stream on: `len` bytes have been written.
unfoldable pub receive_stream : ℕ → ℕ → ℕ → Staged → Written
receive_stream now offset len s =
    if len == 0
    then reply s none
    else (if not (valid_block_chunk s.state.info.block_size s.state.info.expected_size offset len)
        then reply s (some (chunk_refusal s.state.info.block_size len))
        else reply (maybe_flush_meta now (touch now (mark_chunk offset len s))) none)

unfoldable pub write_chunk_aligned_stream : ℕ → ℕ → ChunkStream → Bytes → Staged → Written
write_chunk_aligned_stream now offset chunk f s =
    let w = write_reads offset 0 chunk.reads f in
    let written : Staged = record s { data_file = some w.0 } in
    elim chunk.failure [
      | some e ↦ reply written (some (wrapped "staging: read chunk" e))
      | none ↦ receive_stream now offset w.1 written
    ]

module _ (sha256 : Bytes → Bytes) where
  -- The loop over the pieces of a chunk, of which `n` are left, at byte `start` of its data.
  unfoldable pub verify_pieces :
      ℕ → List Bytes → Bytes → ℕ → ℕ → ℕ → BlockBitmap → BlockBitmap × Option Error
  verify_pieces bs pieces d b start zero verified = (verified, none)
  verify_pieces bs pieces d b start (suc n) verified =
      elim (ltb (b / 64) (length verified.blocks)) [
        | false ↦ (verified, some (panicked "index out of range"))
        | true ↦ elim (is_marked b verified) [
          | true ↦ verify_pieces bs pieces d (b + 1) (start + bs) n verified
          | false ↦ elim (ltb (length d) (start + bs)) [
            | true ↦ (verified, some (panicked "slice bounds out of range"))
            | false ↦ elim (piece_at b pieces) [
              | none ↦ (verified, some (panicked "index out of range"))
              | some piece ↦ elim (bytes_eq (hex (sha256 (slice start bs d))) piece) [
                | true ↦ verify_pieces bs pieces d (b + 1) (start + bs) n (mark b verified)
                | false ↦ (verified, some piece_hash_mismatch)
              ]
            ]
          ]
        ]
      ]

  unfoldable pub verify_chunk : ℕ → Bytes → Staged → Staged × Option Error
  verify_chunk offset d s =
      let bs = s.state.info.block_size in
      if length s.state.info.piece_hashes == 0 then (s, none) else (elim s.state.verified [
        | none ↦ (s, some (panicked "nil pointer dereference"))
        | some v ↦
            let checked =
              verify_pieces bs s.state.info.piece_hashes d (offset / bs) 0
                (chunk_blocks bs offset (length d)) v in
            (record s { state = record s.state { verified = some checked.0 } }, checked.1)
      ])

  -- The path of writeChunkAligned that reads the whole chunk first.
  unfoldable pub write_verified : ℕ → ℕ → Bytes → Bytes → Bytes → Staged → Written
  write_verified now offset expected_sha256 d f s =
      let marked =
        mark_chunk offset (length d) (record s { data_file = some (write_at offset d f) }) in
      let checked = verify_chunk offset d marked in
      if length d == 0
      then reply s none
      else (if not
            (valid_block_chunk s.state.info.block_size s.state.info.expected_size offset (length d))
          then reply s (some (chunk_refusal s.state.info.block_size (length d)))
          else (if not (checksum_ok sha256 expected_sha256 d)
              then reply s (some checksum_mismatch)
              else (elim checked.1 [
                | some e ↦ reply checked.0 (some e)
                | none ↦ reply (maybe_flush_meta now (touch now checked.0)) none
              ])))

  unfoldable pub write_chunk_aligned : ℕ → ℕ → Bytes → ChunkStream → Staged → Written
  write_chunk_aligned now offset expected_sha256 chunk s =
      if not (offset % s.state.info.block_size == 0)
      then reply s (some block_alignment)
      else (elim s.data_file [
        | none ↦ reply s (some session_not_found)
        | some f ↦
            if (length expected_sha256 == 0) && (length s.state.info.piece_hashes == 0)
            then write_chunk_aligned_stream now offset chunk f s
            else (elim chunk.failure [
              | some e ↦ reply s (some (wrapped "staging: read chunk" e))
              | none ↦ write_verified now offset expected_sha256 (flatten chunk.reads) f s
            ])
      ])
