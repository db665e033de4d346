-- ===== src/Staging/Tests.antt =====
-- Uploads of a few bytes, on which the theorems about staging.go are applied.
use mathlib.Core.List.{flatten}
use blobs.Base.{
  bytes_eq_refl, ℕ, zero, suc, ◌/◌, ◌≤◌, ◌<◌, ◌≡◌, ◌↔◌, ◌⊎◌, refl, true, false, ◌&&◌, ◌||◌, ltb,
  leb, List, [], ◌∷◌, Option, none, some, length, All, replicate, arith,
}
use blobs.Base.Bytes.{Bytes, text, write_at}
use blobs.Base.Int.{pos}
use blobs.Errors.{Result, ok, err, Error}
use blobs.Staging.Ranges.{
  ByteRange, RangeSet, add, contains, sort_ranges, insert_range, merge_ranges, merge_from,
}
use blobs.Staging.Ranges
use blobs.Staging.Ranges.Merge.{covered, IsRangeSet, add_lem}
use blobs.Staging.Ranges.Queries.{contains_iff}
use blobs.Staging.Bitmap.{
  BlockBitmap, new_block_bitmap, is_marked, is_complete, mark, change_word, set_bit, words_complete,
  all_set,
}
use blobs.Staging.Bitmap.Marks.{is_complete-is_marked_iff}
use blobs.Staging.Blocks.{block_count_for, progress, valid_block_chunk, mark_blocks}
use blobs.Staging.Blocks.Progress.{progress_lem}
use blobs.Staging.Session.{
  SessionMeta, Staged, BeginOptions, begin_staged, begin_meta, load_state, maybe_flush_meta,
  new_bitmap, new_verified, check_blocks, unsigned, to_lower, all_hashes,
}
use blobs.Staging.Session.Ids.{is_lower_hex_len, all_lower_hex, validate_session_id}
use blobs.Staging.Session.Options.{HasPieces, begin_meta-ok}
use blobs.Staging.Write.{
  receive_range_set, touch, write_reads, checksum_ok, write_chunk_range_set, piece_hash_mismatch,
}
use blobs.Staging.Write.Stream.{byte_at, write_reads_lem}
use blobs.Staging.Write.Received.{IsPart}
use blobs.Staging.Write.Persisted.{
  IsPersisted, write_chunk_range_set-IsPersisted, begin_staged-IsPersisted,
}
use blobs.Staging.Write.Aligned.{
  verify_pieces, chunk_blocks, write_chunk_aligned, write_chunk_aligned_stream, receive_stream,
  reply, mark_chunk,
}
use blobs.Staging.Write.Aligned.Pieces.{verify_pieces-HasPieces}
use blobs.Staging.Manager.{
  Manager, Session, begin, create_session, abort, cleanup, get_or_load_session, put_staged,
}
use blobs.Volume.Address.{hex}
use blobs.Index.Table.{lookup}
use blobs.Staging.Transfer.{CompletedUpload, complete_staged, check_complete, write_staged}
use blobs.Staging.Transfer.Content.{
  Call, call_data, upload, IsGoodCall, complete_staged-upload_safe,
}
use blobs.Staging.Transfer.Finish.{complete_staged-upload}
use blobs.Staging.Transfer.Blocks.{complete_staged-upload_blocks}

-- A hash that a test can compute.
abbrev first_byte : Bytes → Bytes
first_byte d = byte_at 0 d ∷ []

abbrev content : Bytes
content = 10 ∷ 20 ∷ 30 ∷ 40 ∷ 50 ∷ []

abbrev received : RangeSet
received = record { start = 4; stop = 6 } ∷ []

abbrev meta_of : ℕ → SessionMeta
meta_of bs = record {
  id = text "0123456789abcdef0123456789abcdef";
  namespace_id = text "ns";
  key = text "k";
  content_type = [];
  custom = [];
  expected_size = 5;
  expected_sha256 = [];
  block_size = bs;
  piece_hashes = [];
  created_at = 7;
  last_activity = 7;
  ranges = [];
}

abbrev call_of : ℕ → List Bytes → Call
call_of off reads = record {
  at = 9;
  off = off;
  hash = [];
  chunk = record { reads = reads; failure = none };
}

-- The second half first, and the first half in two reads, with a byte that comes twice.
abbrev calls : List Call
calls = call_of 2 ((30 ∷ 40 ∷ 50 ∷ []) ∷ []) ∷ call_of 0 ((10 ∷ []) ∷ (20 ∷ 30 ∷ []) ∷ []) ∷ []

abbrev block_calls : List Call
block_calls = call_of 4 ((50 ∷ []) ∷ []) ∷ call_of 0 ((10 ∷ []) ∷ (20 ∷ 30 ∷ 40 ∷ []) ∷ []) ∷ []

late-IsPart : IsPart content 2 (30 ∷ 40 ∷ 50 ∷ [])
unfolding byte_at
late-IsPart zero h = refl
late-IsPart (suc zero) h = refl
late-IsPart (suc (suc zero)) h = refl
late-IsPart (suc (suc (suc i))) h = absurd (omega arith)

early-IsPart : IsPart content 0 (10 ∷ 20 ∷ 30 ∷ [])
unfolding byte_at
early-IsPart zero h = refl
early-IsPart (suc zero) h = refl
early-IsPart (suc (suc zero)) h = refl
early-IsPart (suc (suc (suc i))) h = absurd (omega arith)

calls_parts : All (λ c. IsPart content c.off (call_data c)) calls
unfolding flatten
calls_parts = (late-IsPart, (early-IsPart, tt))

calls_good : All (IsGoodCall first_byte content) calls
unfolding checksum_ok flatten
calls_good = ((late-IsPart, refl, omega arith, refl), ((early-IsPart, refl, omega arith, refl), tt))

complete_staged-upload_example :
    (done : CompletedUpload × Staged) × (complete_staged first_byte 11
        (upload first_byte calls (begin_staged (meta_of 0)))
      ≡ ok done)
    × (done.0.data_file ≡ content)
unfolding flatten checksum_ok
complete_staged-upload_example =
    complete_staged-upload first_byte content (meta_of 0) calls 11 (omega arith) refl refl refl refl
      calls_good (λ x h. ground (arith, h))

abbrev sent : Staged
sent = upload first_byte calls (begin_staged (meta_of 0))

abbrev done_of : Result (CompletedUpload × Staged) → CompletedUpload × Staged
done_of (ok done) = done
done_of (err e) = (
  record { info = meta_of 0; size = 0; data_file = []; committed = false },
  begin_staged (meta_of 0),
)

abbrev done_sent : CompletedUpload × Staged
done_sent = done_of (complete_staged first_byte 11 sent)

sent_accepted : complete_staged first_byte 11 sent ≡ ok done_sent
unfolding complete_staged check_complete write_staged write_chunk_range_set receive_range_set
    write_reads flatten begin_staged load_state checksum_ok maybe_flush_meta touch add contains
    sort_ranges insert_range merge_ranges merge_from Ranges.is_complete write_at
sent_accepted = refl

complete_staged-upload_safe_example :
    (done_sent.0.size ≡ length done_sent.0.data_file)
    × (0 < sent.state.info.expected_size → done_sent.0.size ≡ sent.state.info.expected_size)
    × ((x : ℕ) → x < done_sent.0.size → byte_at x done_sent.0.data_file ≡ byte_at x content)
complete_staged-upload_safe_example =
    complete_staged-upload_safe first_byte content (meta_of 0) calls 11 done_sent refl refl
      calls_parts sent_accepted

tail-IsPart : IsPart content 4 (50 ∷ [])
unfolding byte_at
tail-IsPart zero h = refl
tail-IsPart (suc i) h = absurd (omega arith)

head-IsPart : IsPart content 0 (10 ∷ 20 ∷ 30 ∷ 40 ∷ [])
unfolding byte_at
head-IsPart zero h = refl
head-IsPart (suc zero) h = refl
head-IsPart (suc (suc zero)) h = refl
head-IsPart (suc (suc (suc zero))) h = refl
head-IsPart (suc (suc (suc (suc i)))) h = absurd (omega arith)

block_parts : All (λ c. IsPart content c.off (call_data c)) block_calls
unfolding flatten
block_parts = (tail-IsPart, (head-IsPart, tt))

abbrev done_blocks : CompletedUpload × Staged
done_blocks =
    done_of
      (complete_staged first_byte 11 (upload first_byte block_calls (begin_staged (meta_of 4))))

blocks_accepted :
    complete_staged first_byte 11 (upload first_byte block_calls (begin_staged (meta_of 4)))
    ≡ ok done_blocks
unfolding complete_staged check_complete write_staged write_chunk_aligned write_chunk_aligned_stream
    receive_stream reply mark_chunk chunk_blocks valid_block_chunk mark_blocks mark is_marked
    write_reads flatten begin_staged load_state new_bitmap new_verified new_block_bitmap
    block_count_for maybe_flush_meta touch change_word set_bit is_complete words_complete all_set
    write_at
blocks_accepted = refl

complete_staged-upload_blocks_example : done_blocks.0.data_file ≡ content
complete_staged-upload_blocks_example =
    complete_staged-upload_blocks first_byte content (meta_of 4) block_calls 11 done_blocks
      (omega arith) (omega arith) refl block_parts blocks_accepted

write_chunk_range_set-IsPersisted_example :
    IsPersisted
      (write_chunk_range_set first_byte 9 2 []
        (record { reads = (30 ∷ []) ∷ []; failure = none })
        (begin_staged (meta_of 0))).staged
write_chunk_range_set-IsPersisted_example =
    write_chunk_range_set-IsPersisted first_byte 9 2 []
      (record { reads = (30 ∷ []) ∷ []; failure = none }) (begin_staged (meta_of 0))
      (begin_staged-IsPersisted (meta_of 0))

add_lem_example :
    IsRangeSet (add received 2 5)
    × ((x : ℕ) → covered x (add received 2 5) ≡ ((leb 2 x && ltb x 5) || covered x received))
add_lem_example = add_lem received 2 5 (omega arith, tt)

contains_iff_example :
    (contains 4 6 received ≡ true) ↔ ((x : ℕ) → 4 ≤ x → x < 6 → covered x received ≡ true)
contains_iff_example = contains_iff 4 6 received (omega arith) (omega arith, tt)

abbrev three_blocks : BlockBitmap
three_blocks = record { blocks = 5 ∷ []; block_count = 3 }

is_complete-is_marked_iff_example :
    (is_complete three_blocks ≡ true) ↔ ((i : ℕ) → i < 3 → is_marked i three_blocks ≡ true)
is_complete-is_marked_iff_example = is_complete-is_marked_iff three_blocks refl

progress_lem_example :
    (progress 4 10 three_blocks ≤ 10)
    × (is_complete three_blocks ≡ true → progress 4 10 three_blocks ≡ 10)
unfolding block_count_for
progress_lem_example = progress_lem 4 10 three_blocks (omega arith) refl refl

write_reads_lem_example :
    ((write_reads 2 0 ((30 ∷ []) ∷ (40 ∷ 50 ∷ []) ∷ []) content).0 ≡ content)
    × ((write_reads 2 0 ((30 ∷ []) ∷ (40 ∷ 50 ∷ []) ∷ []) content).1 ≡ 3)
unfolding flatten write_at
write_reads_lem_example = write_reads_lem 2 ((30 ∷ []) ∷ (40 ∷ 50 ∷ []) ∷ []) content

abbrev id : Bytes
id = text "0123456789abcdef0123456789abcdef"

abbrev options : BeginOptions
options = record {
  content_type = [];
  custom = [];
  expected_size = pos 8;
  expected_sha256 = [];
  block_size = pos 4;
  piece_hashes = replicate 64 97 ∷ replicate 64 65 ∷ [];
}

abbrev begun : SessionMeta
begun = record (meta_of 4) {
  expected_size = 8;
  piece_hashes = replicate 64 97 ∷ replicate 64 97 ∷ [];
}

options_accepted : begin_meta id 7 (text "ns") (text "k") options ≡ ok begun
unfolding begin_meta check_blocks unsigned to_lower all_hashes block_count_for
options_accepted = refl

begin_meta-ok_example :
    (0 < length begun.namespace_id)
    × (0 < length begun.key)
    × (options.expected_size ≡ pos begun.expected_size)
    × (options.block_size ≡ pos begun.block_size)
    × (0 < length begun.expected_sha256 → length begun.expected_sha256 ≡ 64)
    × (begun.ranges ≡ [])
    × (0 < begun.block_size → 0 < begun.expected_size)
    × (0 < length begun.piece_hashes
        → HasPieces begun.expected_size begun.block_size begun.piece_hashes)
begin_meta-ok_example = begin_meta-ok id 7 (text "ns") (text "k") options begun options_accepted

abbrev chunk_checked : BlockBitmap × Option Error
chunk_checked =
    verify_pieces first_byte 4 begun.piece_hashes (1 ∷ 2 ∷ 3 ∷ 4 ∷ []) (4 / 4) 0
      (chunk_blocks 4 4 4) (new_block_bitmap 2)

verify_pieces-HasPieces_example :
    (chunk_checked.1 ≡ none) ⊎ (chunk_checked.1 ≡ some piece_hash_mismatch)
unfolding valid_block_chunk block_count_for new_block_bitmap
verify_pieces-HasPieces_example =
    verify_pieces-HasPieces first_byte 8 4 4 begun.piece_hashes (1 ∷ 2 ∷ 3 ∷ 4 ∷ [])
      (new_block_bitmap 2) ((begin_meta-ok_example).7 (omega arith)) (omega arith) refl refl
      (omega arith)

abbrev random : Bytes
random = replicate 16 10

abbrev nothing : Manager
nothing = record { sessions = []; data_files = []; meta_files = [] }

abbrev plain : BeginOptions
plain = record options { block_size = pos 0; piece_hashes = [] }

abbrev plain_meta : SessionMeta
plain_meta = record begun { id = hex random; block_size = 0; piece_hashes = [] }

abbrev started : Session × Manager
started = (
  record { id = hex random; namespace_id = text "ns"; key = text "k" },
  put_staged (hex random) (begin_staged plain_meta) nothing,
)

started_ok : begin random 7 (text "ns") (text "k") plain nothing ≡ ok started
unfolding begin create_session begin_meta check_blocks unsigned to_lower lookup
started_ok = refl

abbrev one_session : Manager
one_session = record nothing { sessions = (id, load_state (meta_of 0)) ∷ [] }

one_found : lookup id one_session.sessions ≡ some (load_state (meta_of 0))
unfolding lookup
one_found = rw (bytes_eq_refl id) refl

one_loaded : get_or_load_session id one_session ≡ ok (load_state (meta_of 0), one_session)
unfolding get_or_load_session
one_loaded = rw (one_found, get_or_load_session) refl

one_aborted : abort id one_session ≡ ok (cleanup id one_session)
unfolding abort validate_session_id is_lower_hex_len all_lower_hex
one_aborted = rw (one_loaded, abort) refl
