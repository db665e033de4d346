-- ===== src/Volume/Write/Delete.antt =====
-- MarkDeleted (volume.go), over stored chunks.
use blobs.Base.{
  ℕ, suc, ◌<◌, ◌≡◌, ◌≢◌, refl, ap, ◌∙◌, true, false, ltb, List, [], ◌++◌, some, length, drop, arith,
  append_assoc, drop_seam, le→ltb, if◌then◌else◌,
}
use blobs.Base.Bytes.{Bytes, slice}
use blobs.Errors.{ok, err, failed}
use blobs.Object.{ChunkEntry}
use blobs.Volume.Flags.{
  decode_magic_flags, encode_magic_flags, encode_magic_flags-lt, set_flag, flag_deleted,
  set_deleted-IsFlags, is_deleted-set, decode-encode_magic_flags,
}
use blobs.Volume.Header.{PageHeader, IsHeader, page_header_size, decode-encode_page_header}
use blobs.Volume.Segment.Layout.{
  Page, raw_page, raw_pages, IsPage, IsLivePage, decode_live, take-raw_page, length-raw_page,
}
use blobs.Volume.Files.{read_file, write_file, read_file-write_file, read_file-write_file_self}
use blobs.Volume.Engine.{Engine, read_pages, read_chunk}
use blobs.Volume.Engine.Read.{IsStored, read_at_page}
use blobs.Volume.Write.{mark_deleted}
use blobs.Volume.Write.Patch.{update_flags_lem}

-- The page with its deleted flag set.
abbrev deleted_header : PageHeader → ℕ → PageHeader
deleted_header h flags = record h { magic_flags = encode_magic_flags (set_flag flags flag_deleted) }

module _ (page_size : ℕ) (file : Bytes) (h : PageHeader) (s : Bytes) (flags : ℕ) where
  -- ReadChunk stops at a first page whose flags say deleted.
  read_deleted :
      (pages off : ℕ) (buf rest : Bytes)
      → IsLivePage page_size (h, s)
      → flags < 256
      → length buf ≡ page_size
      → drop off file ≡ raw_page page_size (deleted_header h flags, s) ++ rest
      → read_pages (suc pages) true file off page_size buf [] 0
        ≡ err (failed "volume: chunk is deleted")
  unfolding read_pages
  read_deleted pages off buf rest v f b at =
      let p : Page = (deleted_header h flags, s) in
      let set = set_flag flags flag_deleted in
      let set_f = set_deleted-IsFlags flags f in
      let hv : IsHeader p.0 = ground (arith, v.header, encode_magic_flags-lt set set_f) in
      let m : decode_magic_flags p.0.magic_flags ≡ ok set = decode-encode_magic_flags set set_f in
      let whole = length-raw_page page_size p hv v.fits in
      let is_page : IsPage page_size p = record {
        header = hv;
        names_len = v.names_len;
        fits = v.fits;
        flags = set;
        is_flags = set_f;
        magic = refl;
      } in
      let (got, page) = read_at_page page_size off file buf rest p is_page b at in
      let long : ltb (length (slice off page_size file)) page_header_size ≡ false =
        rw (got, whole) (le→ltb _ _ (omega (arith, v.fits))) in
      rw (
        long,
        page,
        take-raw_page page_size p hv,
        decode-encode_page_header p.0 hv set m,
        m,
        is_deleted-set flags f,
      )

module _ (e : Engine) (entry : ChunkEntry) (p : Page) (ps : List Page)
    (st : IsStored e entry p ps) where
  flags : ℕ
  flags = st.live.0.flags

  after_page : Bytes
  after_page = raw_pages e.page_size ps ++ st.rest

  -- The segment with the flag set on the chunk's first page.
  done : Bytes
  unfolding flags after_page
  done = st.before ++ (raw_page e.page_size (deleted_header p.0 flags, p.1) ++ after_page)

  abbrev marked : Engine
  marked = record e { files = write_file entry.segment_id done e.files }

  file_before :
      read_file entry.segment_id e.files
      ≡ some (st.before ++ (raw_page e.page_size p ++ after_page))
  unfolding raw_pages after_page
  file_before =
      st.there
      ∙ ap (λ (t : Bytes). some (st.before ++ t))
          (append_assoc (raw_page e.page_size p) (raw_pages e.page_size ps) st.rest)

  marks : mark_deleted e entry ≡ (marked, ok tt)
  unfolding mark_deleted done
  marks =
      let updated =
        update_flags_lem e.page_size st.before after_page p.0 p.1 st.live.0.header
          (λ old. set_flag old flag_deleted) flags (decode_live st.live.0.page) in
      rw (file_before, mark_deleted, ← st.offset, updated)

  refuses :
      (crc32 : Bytes → ℕ) (buf : Bytes)
      → length buf ≡ e.page_size
      → read_chunk crc32 marked buf entry ≡ err (failed "volume: chunk is deleted")
  unfolding read_chunk done
  refuses crc32 buf b =
      let pages : (if ltb entry.page_count 1 then 1 else entry.page_count) ≡ suc (length ps) =
        ground (arith, st.counted) in
      let here = drop_seam entry.page_offset st.before _ st.offset in
      rw (
        read_file-write_file_self,
        read_chunk,
        pages,
        read_deleted e.page_size done p.0 p.1 flags (length ps) entry.page_offset buf after_page
            st.live.0 st.live.0.is_flags b here,
      )

-- A stored chunk can be marked deleted; it cannot be read afterwards, and no other segment changes.
pub mark_deleted_lem :
    (crc32 : Bytes → ℕ) (e : Engine) (entry : ChunkEntry) (p : Page) (ps : List Page)
    → IsStored e entry p ps
    → (e' : Engine) × (mark_deleted e entry ≡ (e', ok tt))
      × ((buf : Bytes)
          → length buf ≡ e.page_size
          → read_chunk crc32 e' buf entry ≡ err (failed "volume: chunk is deleted"))
      × ((seq : ℕ) → seq ≢ entry.segment_id → read_file seq e'.files ≡ read_file seq e.files)
mark_deleted_lem crc32 e entry p ps st = (
  marked e entry p ps st,
  marks e entry p ps st,
  refuses e entry p ps st crc32,
  λ seq other.
      ground (arith, read_file-write_file entry.segment_id seq (done e entry p ps st) e.files),
)
