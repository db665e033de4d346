-- ===== src/Volume/Open/Tests.antt =====
-- An engine that is opened on a directory with two segments.
use blobs.Base.{some, true, ◌^◌, ◌-◌, ◌≡◌, refl, false, [], ◌∷◌, none, ◌<◌, replicate, arith}
use blobs.Base.Bytes.{uint}
use blobs.Base.Int.{pos}
use blobs.Errors.{ok}
use blobs.Volume.Engine.{Engine}
use blobs.Volume.Files.{read_file, write_file}
use blobs.Volume.Open.{
  Directory, highest_from, highest_seg_seq, fresh_engine, use_segment, open_last, open_volume,
}
use blobs.Volume.Open.Fresh.{IsFresh, open_volume-IsFresh}
use blobs.Volume.Options.{Options, validate, with_defaults}
use blobs.Volume.Write.{open_seg_file, touch}

abbrev options : Options
options = record { page_size = pos 0; chunk_size = pos 0; max_segment_size = pos 0 }

abbrev directory : Directory
directory = record {
  files = (2, replicate 128 0) ∷ (5, replicate 130 0) ∷ [];
  wals = [];
  dirty = false;
}

abbrev opened : Engine
opened = record {
  files = (2, replicate 128 0) ∷ (5, replicate 130 0) ∷ [];
  wals = (5, []) ∷ [];
  dirty = true;
  active = some (record { seq = 0; offset = 130; pending = [] });
  next_seq = 6;
  ns_id = 97 ∷ [];
  page_size = 16384;
  chunk_size = 4194304;
  max_segment_size = 536870912;
  cipher = none;
}

opens : open_volume (97 ∷ []) options none directory ≡ ok opened
unfolding open_volume validate with_defaults open_last fresh_engine highest_seg_seq highest_from
    use_segment open_seg_file read_file write_file touch uint
opens = refl

small : highest_seg_seq directory.files < 2 ^ 64 - 1
unfolding highest_seg_seq highest_from
small = omega arith

open_volume-IsFresh_example : IsFresh directory opened
open_volume-IsFresh_example =
    open_volume-IsFresh (97 ∷ []) options none directory opened small opens
