-- ===== src/Volume/Open.antt =====
-- Open, Close and IsDirty of an engine (volume.go). The directory is given by its files, and what
-- is in it after Open is the engine's. An engine that is closed is its directory.
pub mod Fresh
mod Tests
use blobs.Base.{
  ℕ, ◌+◌, ◌%◌, ◌^◌, Bool, true, false, ltb, if◌then◌else◌, List, [], ◌∷◌, Option, none, some,
}
use blobs.Base.Bytes.{Bytes}
use blobs.Base.Int.{pos_part}
use blobs.Errors.{Result, ok, err, wrapped, ◌>>=◌}
use blobs.Encryption.{Cipher}
use blobs.Volume.Engine.{Engine}
use blobs.Volume.Files.{Files}
use blobs.Volume.Segment.{SegFile}
use blobs.Volume.Options.{Options, validate, with_defaults}
use blobs.Volume.Write.{Outcome, flush_seg, open_seg_file}

-- A namespace's directory; `dirty` says whether the marker file is there.
pub record Directory : Type 0 where
  pub files : Files
  pub wals : Files
  pub dirty : Bool

unfoldable pub highest_from : ℕ → Files → ℕ
highest_from max [] = max
highest_from max ((seq, b) ∷ r) = highest_from (if ltb max seq then seq else max) r

unfoldable pub highest_seg_seq : Files → ℕ
highest_seg_seq files = highest_from 0 files

-- The engine before it has looked for its segments, the directory marked dirty.
unfoldable pub fresh_engine : Bytes → Options → Option Cipher → Directory → Engine
fresh_engine ns_id opts cipher dir = record {
  files = dir.files;
  wals = dir.wals;
  dirty = true;
  active = none;
  next_seq = 1;
  ns_id = ns_id;
  page_size = pos_part opts.page_size;
  chunk_size = pos_part opts.chunk_size;
  max_segment_size = pos_part opts.max_segment_size;
  cipher = cipher;
}

-- The opened segment becomes the active one.
unfoldable pub use_segment : ℕ → Outcome SegFile → Result Engine
use_segment seq (e, err x) = err (wrapped "volume: open active segment" x)
use_segment seq (e, ok sf) = ok (record e { active = some sf; next_seq = (seq + 1) % 2 ^ 64 })

-- The segment with the highest number, if there is one.
unfoldable pub open_last : Engine → ℕ → Result Engine
open_last e seq = if ltb 0 seq then use_segment seq (open_seg_file e seq) else ok e

unfoldable pub open_volume : Bytes → Options → Option Cipher → Directory → Result Engine
open_volume ns_id opts cipher dir = do
  _ ← validate opts
  open_last (fresh_engine ns_id (with_defaults opts) cipher dir) (highest_seg_seq dir.files)

unfoldable pub close_volume : Engine → Directory
close_volume e =
    let flushed : Engine = elim e.active [ none ↦ e | some sf ↦ flush_seg sf e ] in
    record { files = flushed.files; wals = flushed.wals; dirty = false }
