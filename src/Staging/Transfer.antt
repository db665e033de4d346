-- ===== src/Staging/Transfer.antt =====
-- WriteChunk, Complete and CompletedUpload (staging.go). CompletedUpload is the session's record
-- with its data; the reader of its file is left out. A failed call also leaves a session in memory
-- that it has loaded, which a later call would load again.
pub mod Content
pub mod Finish
pub mod Blocks
use blobs.Base.{
  ◌≤◌, ◌<◌, ◌≡◌, arith, ℕ, Bool, true, false, not, ◌&&◌, ◌==◌, if◌then◌else◌, Option, none, some,
  length,
}
use blobs.Base.Bytes.{Bytes}
use blobs.Base.Int.{ℤ}
use blobs.Errors.{Error, Result, ok, err, failed, wrapped, panicked, refuse_if, ◌>>=◌, ◌>>◌}
use blobs.Staging.Ranges.{is_complete}
use blobs.Staging.Bitmap
use blobs.Staging.Session.{
  SessionMeta, SessionState, Staged, session_not_found, equal_fold, to_lower, hash_chars, unsigned,
}
use blobs.Volume.Address.{hex}
use blobs.Staging.Session.Ids.{validate_session_id}
use blobs.Staging.Write.{ChunkStream, Written, checksum_mismatch, write_chunk_range_set, touch}
use blobs.Staging.Write.Aligned.{write_chunk_aligned}
use blobs.Staging.Manager.{Manager, get_or_load_session, staged_of, put_staged, cleanup}

abbrev pub size_mismatch : Error
size_mismatch = failed "staging: staged size does not match expected size"

abbrev pub incomplete_upload : Error
incomplete_upload = failed "staging: upload is incomplete; missing byte ranges"

-- The Go fields of the session are those of `info`.
pub record CompletedUpload : Type 0 where
  pub info : SessionMeta
  pub size : ℕ
  pub data_file : Bytes
  pub committed : Bool

unfoldable pub finalize : CompletedUpload → CompletedUpload
finalize cu = record cu { committed = true }

unfoldable pub close : CompletedUpload → Manager → Manager
close cu m = if cu.committed then cleanup cu.info.id m else m

module _ (sha256 : Bytes → Bytes) where
  -- WriteChunk behind the checks of its arguments, on one session.
  unfoldable pub write_staged : ℕ → ℕ → Bytes → ChunkStream → Staged → Written
  write_staged now off expected_sha256 chunk s =
      if s.state.info.block_size == 0
      then write_chunk_range_set sha256 now off expected_sha256 chunk s
      else write_chunk_aligned sha256 now off expected_sha256 chunk s

  pub write_staged-range_set :
      (now off : ℕ) (hash : Bytes) (chunk : ChunkStream) (s : Staged)
      → s.state.info.block_size ≡ 0
      → write_staged now off hash chunk s ≡ write_chunk_range_set sha256 now off hash chunk s
  unfolding write_staged
  write_staged-range_set now off hash chunk s blockless = ground (arith, blockless)

  pub write_staged-aligned :
      (now off : ℕ) (hash : Bytes) (chunk : ChunkStream) (s : Staged)
      → 0 < s.state.info.block_size
      → write_staged now off hash chunk s ≡ write_chunk_aligned sha256 now off hash chunk s
  unfolding write_staged
  write_staged-aligned now off hash chunk s some_bs = ground (arith, some_bs)

  -- What WriteChunk refuses before it looks for the session.
  unfoldable pub check_chunk : Bytes → ℤ → Bytes → Result ℕ
  check_chunk id off expected_sha256 = do
    _ ← validate_session_id id
    n ← unsigned off (failed "staging: offset must not be negative")
    _ ←
        refuse_if
          (not (length expected_sha256 == 0)
            && not (length (to_lower expected_sha256) == hash_chars))
          (failed "staging: expectedSHA256 must be 64 hex chars")
    ok n

  -- The total or progress that WriteChunk returns, its error, and the manager after it.
  unfoldable pub write_chunk :
      ℕ → Bytes → ℤ → ChunkStream → Bytes → Manager → ℕ × Option Error × Manager
  write_chunk now id off chunk expected_sha256 m = elim (check_chunk id off expected_sha256) [
    | err e ↦ (0, some e, m)
    | ok n ↦ elim (get_or_load_session id m) [
      | err e ↦ (0, some e, m)
      | ok r ↦
          let w = write_staged now n (to_lower expected_sha256) chunk (staged_of id r.0 r.1) in
          (w.total, w.error, put_staged id w.staged r.1)
    ]
  ]

  -- verifyFileChecksum, from the start of the file.
  unfoldable pub verify_file_checksum : Bytes → Bytes → Result (Unit {0})
  verify_file_checksum f expected_hex =
      refuse_if (not (equal_fold (hex (sha256 f)) expected_hex)) checksum_mismatch

  -- The tests of Complete, on the bitmaps and on the ranges.
  unfoldable pub check_complete : Bytes → SessionState → Result (Unit {0})
  check_complete f s =
      let size = s.info.expected_size in
      if s.info.block_size == 0
      then (refuse_if (not (is_complete (if size == 0 then length f else size) s.info.ranges))
            incomplete_upload
          >> (if length s.info.expected_sha256 == 0
              then ok tt
              else verify_file_checksum f s.info.expected_sha256))
      else (refuse_if (not (Bitmap.is_complete s.bitmap)) incomplete_upload >> elim s.verified [
        | none ↦ ok tt
        | some v ↦
            refuse_if (not (Bitmap.is_complete v)) (failed "staging: piece verification incomplete")
      ])

  -- Complete on one session. Where the data file is missing, a session without blocks has its lock
  -- released twice, which the runtime does not survive.
  unfoldable pub complete_staged : ℕ → Staged → Result (CompletedUpload × Staged)
  complete_staged now s = elim s.data_file [
    | none ↦ err (
        if s.state.info.block_size == 0
        then panicked "sync: unlock of unlocked mutex"
        else wrapped "staging" session_not_found)
    | some f ↦ do
      _ ←
          refuse_if
            (not (s.state.info.expected_size == 0) && not (length f == s.state.info.expected_size))
            size_mismatch
      _ ← check_complete f s.state
      let t = touch now s
      let cu : CompletedUpload = record {
        info = t.state.info;
        size = length f;
        data_file = f;
        committed = false;
      }
      ok (cu, record t { saved = some t.state.info })
  ]

  unfoldable pub complete : ℕ → Bytes → Manager → Result (CompletedUpload × Manager)
  complete now id m = do
    _ ← validate_session_id id
    r ← get_or_load_session id m
    c ← complete_staged now (staged_of id r.0 r.1)
    ok (c.0, put_staged id c.1 r.1)
