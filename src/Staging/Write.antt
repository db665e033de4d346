-- ===== src/Staging/Write.antt =====
-- WriteChunk's two paths (staging.go): writeChunkRangeSet, writeChunkAligned and
-- writeChunkAlignedStream, on one session. A reader is the list of what its calls of Read return,
-- and the error that ends them, none for io.EOF.
pub mod Aligned
pub mod Stream
pub mod Received
pub mod Accepted
pub mod Persisted
use mathlib.Core.List.{flatten}
use blobs.Base.{
  ℕ, zero, suc, ◌+◌, ◌-◌, ◌*◌, ◌/◌, ◌%◌, Bool, true, false, not, ◌&&◌, ◌||◌, ◌==◌, ltb, leb,
  if◌then◌else◌, List, [], ◌∷◌, ◌++◌, Option, none, some, length, bytes_eq,
}
use blobs.Base.Bytes.{Bytes, slice, write_at}
use blobs.Errors.{Error, failed, wrapped, panicked}
use blobs.Staging.Ranges.{add, contains, total_bytes}
use blobs.Staging.Bitmap.{BlockBitmap, is_marked, mark}
use blobs.Staging.Blocks.{valid_block_chunk, mark_blocks, progress}
use blobs.Staging.Session.{
  SessionMeta, SessionState, Staged, session_not_found, equal_fold, maybe_flush_meta,
}
use blobs.Volume.Address.{hex}

abbrev pub checksum_mismatch : Error
checksum_mismatch = failed "staging: checksum mismatch"

abbrev pub block_alignment : Error
block_alignment = failed "staging: chunk must be block-aligned when BlockSize > 0"

abbrev pub piece_hash_mismatch : Error
piece_hash_mismatch = failed "staging: piece hash mismatch"

abbrev pub exceeds_expected_size : Error
exceeds_expected_size = failed "staging: chunk exceeds expected size"

pub record ChunkStream : Type 0 where
  pub reads : List Bytes
  pub failure : Option Error

-- The session after a call, and what the call returns.
pub record Written : Type 0 where
  pub staged : Staged
  pub total : ℕ
  pub error : Option Error

-- The loop that copies the reader into the data file: the file, and the bytes written.
unfoldable pub write_reads : ℕ → ℕ → List Bytes → Bytes → Bytes × ℕ
write_reads offset written [] f = (f, written)
write_reads offset written (p ∷ ps) f =
    write_reads offset (written + length p) ps
      (if length p == 0 then f else write_at (offset + written) p f)

unfoldable pub range_total : Staged → ℕ
range_total s = total_bytes s.state.info.ranges

unfoldable pub state_progress : Staged → ℕ
state_progress s = progress s.state.info.block_size s.state.info.expected_size s.state.bitmap

unfoldable pub touch : ℕ → Staged → Staged
touch now s = record s {
  state = record s.state { info = record s.state.info { last_activity = now } };
}

module _ (sha256 : Bytes → Bytes) where
  -- A checksum that is given is that of the data.
  unfoldable pub checksum_ok : Bytes → Bytes → Bool
  checksum_ok expected_sha256 d =
      (length expected_sha256 == 0) || equal_fold (hex (sha256 d)) expected_sha256

  -- writeChunkRangeSet from the end of the stream on: `d` has been written at the offset.
  unfoldable pub receive_range_set : ℕ → ℕ → Bytes → Bytes → Staged → Written
  receive_range_set now offset expected_sha256 d s =
      let chunk_end = offset + length d in
      let size = s.state.info.expected_size in
      let seen = maybe_flush_meta now (touch now s) in
      let ranges = add s.state.info.ranges offset chunk_end in
      let info : SessionMeta = record s.state.info { ranges = ranges; last_activity = now } in
      let added : Staged = record s { state = record s.state { info = info; dirty = true } } in
      if length d == 0
      then record { staged = s; total = range_total s; error = none }
      else (if not (size == 0) && ltb size chunk_end
          then record { staged = s; total = range_total s; error = some exceeds_expected_size }
          else (if contains offset chunk_end s.state.info.ranges
              then record { staged = seen; total = range_total s; error = none }
              else (if checksum_ok expected_sha256 d
                  then record {
                    staged = maybe_flush_meta now added;
                    total = total_bytes ranges;
                    error = none;
                  }
                  else record {
                    staged = s;
                    total = range_total s;
                    error = some checksum_mismatch;
                  })))

  -- writeChunkRangeSet: the data is in the file before any of it is checked.
  unfoldable pub write_chunk_range_set : ℕ → ℕ → Bytes → ChunkStream → Staged → Written
  write_chunk_range_set now offset expected_sha256 chunk s = elim s.data_file [
    | none ↦ record { staged = s; total = 0; error = some session_not_found }
    | some f ↦
        let written : Staged = record s {
          data_file = some (write_reads offset 0 chunk.reads f).0;
        } in
        elim chunk.failure [
          | some e ↦ record {
            staged = written;
            total = range_total s;
            error = some (wrapped "staging: read chunk" e);
          }
          | none ↦ receive_range_set now offset expected_sha256 (flatten chunk.reads) written
        ]
  ]
