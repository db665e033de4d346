-- ===== src/Volume/Blob/Tests.antt =====
-- A run of WriteBlob: two chunks on pages of 96 bytes in a new engine.
use mathlib.Core.List.{flatten}
use blobs.Base.{ℕ, ◌+◌, ◌≡◌, refl, true, List, [], ◌∷◌, none, replicate}
use blobs.Base.Bytes.{Bytes, put_uint, uint, write_at}
use blobs.Errors.{Result, ok, err, failed}
use blobs.Volume.Blob.{
  WriteResult, seal_payload, append_active, patch_pages, own_chunks, append_wal, write_piece,
  write_pieces, finish_blob, write_blob,
}
use blobs.Volume.Engine.{Engine}
use blobs.Volume.Files.{read_file, write_file}
use blobs.Volume.Flags.{encode_magic_flags, decode_magic_flags}
use blobs.Volume.Header.{encode_page_header}
use blobs.Volume.Segment.{encode_seg_file_header, ns_array, page_bytes, append_loop, append_chunk}
use blobs.Volume.Write.{
  Outcome, append_file, touch, create_seg_file, activate, ensure_active, flush_seg, flush,
  roll_if_needed, update_flags, patch_page,
}

abbrev sum_bytes : Bytes → ℕ
sum_bytes [] = 0
sum_bytes (b ∷ bs) = b + sum_bytes bs

-- Functions in place of SHA-256 and CRC-32.
abbrev digest_of : Bytes → Bytes
digest_of b = replicate 32 (sum_bytes b)

abbrev no_random : ℕ → Result Bytes
no_random n = err (failed "no source")

abbrev new_engine : Engine
new_engine = record {
  files = [];
  wals = [];
  dirty = true;
  active = none;
  next_seq = 1;
  ns_id = 97 ∷ [];
  page_size = 96;
  chunk_size = 64;
  max_segment_size = 4096;
  cipher = none;
}

abbrev two_pieces : List Bytes
two_pieces = (1 ∷ 2 ∷ []) ∷ (3 ∷ []) ∷ []

abbrev run : Outcome WriteResult
run = write_blob digest_of sum_bytes no_random 5 two_pieces none new_engine

abbrev result_of : Outcome WriteResult → WriteResult
result_of (e, ok r) = r
result_of (e, err x) = record { blob_id = []; total_size = 0; chunks = [] }

run_ok : run ≡ (run.0, ok (result_of run))
unfolding write_blob write_pieces write_piece finish_blob seal_payload append_active patch_pages
    own_chunks append_wal ensure_active activate create_seg_file touch append_file flush_seg flush
    roll_if_needed update_flags patch_page read_file write_file append_chunk append_loop page_bytes
    encode_page_header encode_seg_file_header ns_array put_uint uint write_at encode_magic_flags
    decode_magic_flags flatten
run_ok = refl
