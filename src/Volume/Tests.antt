-- ===== src/Volume/Tests.antt =====
-- Runs of the volume's operations on small data: a chunk of ten bytes on pages of 96, which hold
-- eight bytes of payload each.
use mathlib.Core.List.{flatten}
use blobs.Base.{
  ℕ, ◌≤◌, length-append, ◌+◌, ◌*◌, ◌≡◌, ◌≢◌, refl, true, false, [], ◌∷◌, ◌++◌, none, some, length,
  replicate, All, arith,
}
use blobs.Base.Bytes.{Bytes}
use blobs.Base.Int.{pos}
use blobs.Errors.{ok, err, failed}
use blobs.Object.{ChunkEntry}
use blobs.Volume.Flags.{is_deleted, encode_magic_flags, decode_magic_flags}
use blobs.Volume.Header.{
  PageHeader, IsHeader, encode_page_header, decode_page_header, decode-encode_page_header,
}
use blobs.Volume.Options.{Options}
use blobs.Volume.Segment.{SegFile, append_chunk, pages_for}
use blobs.Volume.Segment.Append.{chunk_pages, append_chunk-chunk_pages}
use blobs.Volume.Segment.Layout.{
  Page, payloads, raw_pages, page_list, IsLivePage, page_list-IsLivePage,
}
use blobs.Volume.Files.{read_file}
use blobs.Volume.Engine.{Engine, read_chunk, decrypt_chunk}
use blobs.Volume.Engine.Read.{IsStored, read_chunk_lem}
use blobs.Volume.Write.{flush_seg, mark_deleted}
use blobs.Volume.Write.Delete.{mark_deleted_lem}
use blobs.Volume.RoundTrip.{IsWriter, IsFresh, append_chunk-read_chunk}
use blobs.Volume.Scan.{scan_seg_file}
use blobs.Volume.Scan.Walk.{page_entries}
use blobs.Volume.Scan.Whole.{scan_seg_file-pages}

abbrev sum_bytes : Bytes → ℕ
sum_bytes [] = 0
sum_bytes (b ∷ bs) = b + sum_bytes bs

abbrev payload : Bytes
payload = 1 ∷ 2 ∷ 3 ∷ 4 ∷ 5 ∷ 6 ∷ 7 ∷ 8 ∷ 9 ∷ 10 ∷ []

abbrev header : PageHeader
header = record {
  data_len = 0;
  chunk_id = replicate 32 1;
  blob_id = replicate 32 0;
  chunk_seq = 0;
  total_chunks = 0;
  crc32 = 55;
  magic_flags = 0xB10B5E00;
}

header_fits : IsHeader header
header_fits = record {
  data_len_lt = omega arith;
  chunk_id_len = refl;
  blob_id_len = refl;
  chunk_seq_lt = omega arith;
  total_chunks_lt = omega arith;
  crc32_lt = omega arith;
  magic_flags_lt = omega arith;
}

abbrev segment : SegFile
segment = record { seq = 1; offset = 3; pending = 5 ∷ [] }

abbrev first_piece : Bytes
first_piece = 1 ∷ 2 ∷ 3 ∷ 4 ∷ 5 ∷ 6 ∷ 7 ∷ 8 ∷ []

abbrev first_page : Page
first_page = (record header { data_len = 8 }, first_piece)

abbrev last_page : Page
last_page = (record header { data_len = 2; crc32 = 0 }, 9 ∷ 10 ∷ [])

abbrev engine : Bytes → Engine
engine file = record {
  files = (1, file) ∷ [];
  wals = [];
  dirty = true;
  active = some segment;
  next_seq = 2;
  ns_id = 97 ∷ [];
  page_size = 96;
  chunk_size = 64;
  max_segment_size = 4096;
  cipher = none;
}

abbrev entry : ChunkEntry
entry = record {
  chunk_id = 99 ∷ [];
  blob_id = [];
  segment_id = 1;
  namespace_id = 97 ∷ [];
  page_offset = 3;
  page_count = 2;
  len = 10;
  seq_no = 0;
  ref_count = pos 1;
  nonce = [];
  tag = [];
}

header_magic : header.magic_flags ≡ encode_magic_flags 0
unfolding encode_magic_flags
header_magic = refl

not_deleted : is_deleted 0 ≡ false
unfolding is_deleted
not_deleted = refl

pages_live : All (IsLivePage 96) (first_page ∷ last_page ∷ [])
unfolding page_list
pages_live =
    page_list-IsLivePage header 96 true (first_piece ∷ (9 ∷ 10 ∷ []) ∷ []) 0 (omega arith)
      (omega arith) header_fits (omega arith) header_magic not_deleted (omega arith)

abbrev stored_file : Bytes
stored_file = (1 ∷ 2 ∷ 3 ∷ []) ++ (raw_pages 96 (first_page ∷ last_page ∷ []) ++ (4 ∷ []))

chunk_stored : IsStored (engine stored_file) entry first_page (last_page ∷ [])
unfolding read_file
chunk_stored = record {
  before = 1 ∷ 2 ∷ 3 ∷ [];
  rest = 4 ∷ [];
  page_size_lt = omega arith;
  offset = refl;
  there = refl;
  counted = refl;
  live = pages_live;
}

read_chunk_lem_example :
    read_chunk sum_bytes (engine stored_file) (replicate 96 7) entry ≡ ok payload
unfolding flatten decrypt_chunk
read_chunk_lem_example =
    read_chunk_lem sum_bytes (engine stored_file) (replicate 96 7) entry first_page (last_page ∷ [])
      chunk_stored refl

header-IsFresh : IsFresh sum_bytes header payload
header-IsFresh = record {
  header = header_fits;
  flags = 0;
  is_flags = omega arith;
  magic = header_magic;
  live = not_deleted;
  crc = refl;
}

segment-IsWriter : IsWriter (engine (1 ∷ 2 ∷ [])) segment
unfolding read_file
segment-IsWriter = record { file = 1 ∷ 2 ∷ []; there = refl; offset = refl }

append_chunk-read_chunk_example :
    (sf' : SegFile) × (offset : ℕ) × (count : ℕ) × (append_chunk segment header payload 96
      ≡ some (sf', offset, count))
    × (read_chunk sum_bytes
          (flush_seg sf' (engine (1 ∷ 2 ∷ [])))
          (replicate 96 7)
          (record entry { segment_id = 1; page_offset = offset; page_count = count })
        ≡ ok payload)
unfolding decrypt_chunk
append_chunk-read_chunk_example =
    append_chunk-read_chunk sum_bytes (engine (1 ∷ 2 ∷ [])) segment header payload entry
      (omega arith) (omega arith) segment-IsWriter header-IsFresh (replicate 96 7) refl

append_chunk-chunk_pages_example :
    (append_chunk segment header payload 96
      ≡ some (
        record segment {
          pending = (5 ∷ []) ++ raw_pages 96 (chunk_pages header 96 payload);
          offset = 3 + length (raw_pages 96 (chunk_pages header 96 payload));
        },
        3,
        length (chunk_pages header 96 payload),
      ))
    × (length (chunk_pages header 96 payload) ≡ pages_for 10 8)
    × (length (raw_pages 96 (chunk_pages header 96 payload))
        ≡ 96 * length (chunk_pages header 96 payload))
    × (flatten (payloads (chunk_pages header 96 payload)) ≡ payload)
append_chunk-chunk_pages_example =
    append_chunk-chunk_pages header payload 96 segment (omega arith) (omega arith) header_fits

mark_deleted_lem_example :
    (e' : Engine) × (mark_deleted (engine stored_file) entry ≡ (e', ok tt))
    × ((buf : Bytes)
        → length buf ≡ 96
        → read_chunk sum_bytes e' buf entry ≡ err (failed "volume: chunk is deleted"))
    × ((seq : ℕ) → seq ≢ 1 → read_file seq e'.files ≡ read_file seq ((1, stored_file) ∷ []))
mark_deleted_lem_example =
    mark_deleted_lem sum_bytes (engine stored_file) entry first_page (last_page ∷ []) chunk_stored

abbrev scanned_file : Bytes
scanned_file = replicate 128 0 ++ raw_pages 96 (first_page ∷ last_page ∷ [])

long_enough : 128 ≤ length scanned_file
long_enough =
    omega (arith, length-append (replicate 128 0) (raw_pages 96 (first_page ∷ last_page ∷ [])))

scan_seg_file-pages_example :
    scan_seg_file (engine scanned_file) 1 scanned_file
    ≡ page_entries (97 ∷ []) 1 96 128 (first_page ∷ last_page ∷ [])
scan_seg_file-pages_example =
    scan_seg_file-pages (engine scanned_file) 1 (first_page ∷ last_page ∷ []) scanned_file
      (omega arith) (pages_live.0.page, (pages_live.1.0.page, tt)) long_enough refl

decode-encode_page_header_example : decode_page_header (encode_page_header header) ≡ ok header
unfolding decode_magic_flags
decode-encode_page_header_example = decode-encode_page_header header header_fits 0 refl

abbrev small_pages : Options
small_pages = record { page_size = pos 4096; chunk_size = pos 0; max_segment_size = pos 0 }

abbrev digest : Bytes
digest = 10 ∷ 255 ∷ []
