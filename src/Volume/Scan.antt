-- ===== src/Volume/Scan.antt =====
-- Walks over segment files (volume.go): ScanSegments, SegmentStats, ListSegmentIDs, RewriteSegment
-- and DeleteSegmentFile.
-- A callback of ScanSegments gets the entries of `scan_segments` in their order, with the fields of
-- the header and its `flags_of`. In an entry's length a DataLen of 2^63 or more, which the code
-- takes for a negative length, is that number; no file holds such a page.
pub mod Walk
pub mod Whole
use blobs.Base.{
  ℕ, zero, suc, ◌+◌, ◌-◌, ◌*◌, ◌%◌, ◌^◌, Bool, true, false, ◌==◌, ltb, if◌then◌else◌, List, [], ◌∷◌,
  ◌++◌, Option, none, some, map, length, drop, replicate,
}
use blobs.Base.Int.{pos}
use blobs.Base.Bytes.{Bytes, slice}
use blobs.Errors.{Result, ok, err, failed, wrapped}
use blobs.Object.{ChunkEntry}
use blobs.Volume.Address.{blob_id_from_digest, chunk_id_from_content}
use blobs.Volume.Flags.{is_deleted, decode_magic_flags}
use blobs.Volume.Header.{PageHeader, page_header_size, seg_header_size, decode_page_header}
use blobs.Volume.Segment.{SegFile, append_raw, pages_for_uint64}
use blobs.Volume.Files.{Files, read_file, remove_file, names}
use blobs.Volume.Engine.{Engine, read_at}
use blobs.Volume.Write.{Outcome, ◌>>=◌, create_seg_file, flush_seg}

-- `flags, _ := decodeMagicFlags(…)`, behind a decoded header.
abbrev pub flags_of : PageHeader → ℕ
flags_of h = elim (decode_magic_flags h.magic_flags) [ ok f ↦ f | err e ↦ 0 ]

-- The index entry that is made of a page header alone.
abbrev pub entry_of_header : Bytes → ℕ → ℕ → ℕ → PageHeader → ChunkEntry
entry_of_header ns_id seq offset capacity h = record {
  chunk_id = chunk_id_from_content h.chunk_id;
  blob_id = blob_id_from_digest h.blob_id;
  segment_id = seq;
  namespace_id = ns_id;
  page_offset = offset;
  page_count = pages_for_uint64 h.data_len capacity;
  len = h.data_len;
  seq_no = h.chunk_seq;
  ref_count = pos 0;
  nonce = [];
  tag = [];
}

-- The loop of scanSegFile, with fuel: it ends at a short or a malformed header.
unfoldable pub scan_loop : ℕ → Bytes → ℕ → ℕ → ℕ → Bytes → List (ChunkEntry × PageHeader)
scan_loop zero ns_id seq page_size offset file = []
scan_loop (suc fuel) ns_id seq page_size offset file =
    let b = slice offset page_header_size file in
    if ltb (length b) page_header_size then [] else elim (decode_page_header b) [
      | err e ↦ []
      | ok h ↦
          let entry = entry_of_header ns_id seq offset (page_size - page_header_size) h in
          (entry, h)
          ∷ scan_loop fuel ns_id seq page_size (offset + entry.page_count * page_size) file
    ]

-- Each round goes on by a page at least, so the length of the file is fuel enough.
unfoldable pub scan_seg_file : Engine → ℕ → Bytes → List (ChunkEntry × PageHeader)
scan_seg_file e seq file = scan_loop (length file) e.ns_id seq e.page_size seg_header_size file

unfoldable pub scan_files : Engine → Files → List (ChunkEntry × PageHeader)
scan_files e [] = []
scan_files e ((seq, file) ∷ r) = scan_seg_file e seq file ++ scan_files e r

unfoldable pub scan_segments : Engine → List (ChunkEntry × PageHeader)
unfolding scan_files
scan_segments e = scan_files e e.files

unfoldable pub list_segment_ids : Engine → List ℕ
list_segment_ids e = names e.files

unfoldable pub active_segment_id : Engine → Option ℕ
active_segment_id e = elim e.active [ none ↦ none | some sf ↦ some sf.seq ]

abbrev pub is_active : Engine → ℕ → Bool
is_active e seg = elim e.active [ none ↦ false | some sf ↦ sf.seq == seg ]

unfoldable pub delete_segment_file : Engine → ℕ → Outcome (Unit {0})
delete_segment_file e seg =
    if is_active e seg
    then (e, err (failed "volume: refusing to delete segment: it is the active segment"))
    else (record e { files = remove_file seg e.files; wals = remove_file seg e.wals }, ok tt)

-- ChunksKept is the length of `relocated`.
pub record RewriteState : Type 0 where
  pub target : SegFile
  pub relocated : List ChunkEntry
  pub pages_freed : ℕ
  pub bytes_freed : ℕ

-- The loop of RewriteSegment, with fuel. A live span is copied as it stands; what the old file
-- lacks of it is zeros. The span is taken to be allocated, as it is for a page of the old file.
unfoldable pub rewrite_loop :
    ℕ → Bytes → ℕ → ℕ → ℕ → Bytes → RewriteState → RewriteState × Result (Unit {0})
rewrite_loop zero ns_id new_seq page_size offset old st = (st, ok tt)
rewrite_loop (suc fuel) ns_id new_seq page_size offset old st =
    let b = slice offset page_header_size old in
    if ltb (length b) page_header_size then (st, ok tt) else elim (decode_page_header b) [
      | err x ↦ (st, err (wrapped "volume: decode page header during rewrite" x))
      | ok h ↦
          let pages = pages_for_uint64 h.data_len (page_size - page_header_size) in
          let span = pages * page_size in
          let skipped = record st {
            pages_freed = st.pages_freed + pages;
            bytes_freed = st.bytes_freed + h.data_len;
          } in
          let (target, at) = append_raw st.target (read_at old offset span (replicate span 0)) in
          let entry = entry_of_header ns_id new_seq at (page_size - page_header_size) h in
          let kept = record st { target = target; relocated = st.relocated ++ (entry ∷ []) } in
          let next = if is_deleted (flags_of h) then skipped else kept in
          rewrite_loop fuel ns_id new_seq page_size (offset + span) old next
    ]

-- The new segment is flushed and closed, also where the old one cannot be read to its end.
unfoldable pub rewrite_segment : ℕ → Engine → ℕ → Outcome (ℕ × RewriteState)
rewrite_segment now e old_seg =
    let new_seq = e.next_seq in
    let e₁ = record e { next_seq = (e.next_seq + 1) % 2 ^ 64 } in
    if is_active e old_seg
    then (e, err (failed "volume: cannot rewrite segment: it is the active segment"))
    else elim (read_file old_seg e.files) [
      | none ↦ (e₁, err (failed "volume: open segment for rewrite"))
      | some old ↦ create_seg_file now e₁ new_seq >>= λ e₂ sf.
          let start : RewriteState = record {
            target = sf;
            relocated = [];
            pages_freed = 0;
            bytes_freed = 0;
          } in
          let (st, outcome) =
            rewrite_loop (length old) e.ns_id new_seq e.page_size seg_header_size old start in
          let e₃ = flush_seg st.target e₂ in
          elim outcome [ err x ↦ (e₃, err x) | ok _ ↦ (e₃, ok (new_seq, st)) ]
    ]
