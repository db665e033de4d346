-- ===== src/Volume/Engine/Read.antt =====
-- ReadChunk on pages that appendChunk wrote.
use mathlib.Core.List.{flatten}
use blobs.Base.{
  ℕ, suc, ◌+◌, ◌-◌, ◌^◌, ◌<◌, ◌≡◌, refl, sym, ap, ◌∙◌, Bool, true, false, if◌then◌else◌, List, [],
  ◌∷◌, ◌++◌, some, length, take, drop, All, arith, append_assoc, take-append, ◌==◌, drop_seam,
  drop_all, drop-drop, append-nil, ltb, leb, le→ltb,
}
use blobs.Base.Bytes.{Bytes, slice}
use blobs.Errors.{ok, err, corruption}
use blobs.Object.{ChunkEntry}
use blobs.Volume.Files.{read_file}
use blobs.Volume.Header.{page_header_size, decode-encode_page_header}
use blobs.Volume.Segment.Layout.{
  Page, raw_page, raw_pages, payloads, IsPage, IsLivePage, length-raw_page, take-raw_page,
  slice-raw_page, decode_live,
}
use blobs.Volume.Engine.{Engine, read_pages, read_chunk, read_at, decrypt_chunk}

-- A read of a page-sized buffer at a page fetches that page.
pub read_at_page :
    (page_size off : ℕ) (file buf rest : Bytes) (p : Page)
    → IsPage page_size p
    → length buf ≡ page_size
    → drop off file ≡ raw_page page_size p ++ rest
    → (slice off page_size file ≡ raw_page page_size p)
      × (read_at file off page_size buf ≡ raw_page page_size p)
read_at_page page_size off file buf rest p v b at =
    let whole = length-raw_page page_size p v.header v.fits in
    let got : slice off page_size file ≡ raw_page page_size p =
      ap (take page_size) at ∙ take-append page_size (raw_page page_size p) rest whole in
    (got, rw (got, whole, drop_all page_size buf (omega arith)) (append-nil _))

module _ (page_size : ℕ) (file : Bytes) where
  -- One round reads the page that stands at the offset, and goes on behind it.
  read_page_step :
      (pages : ℕ) (first : Bool) (off : ℕ) (buf acc : Bytes) (crc : ℕ) (p : Page) (rest : Bytes)
      → page_size < 2 ^ 32
      → length buf ≡ page_size
      → IsLivePage page_size p
      → drop off file ≡ raw_page page_size p ++ rest
      → read_pages (suc pages) first file off page_size buf acc crc
        ≡ read_pages pages false file
            (off + page_size)
            page_size
            (raw_page page_size p)
            (acc ++ p.1)
            (if first then p.0.crc32 else crc)
  unfolding read_pages
  read_page_step pages first off buf acc crc p rest small b v at =
      let whole = length-raw_page page_size p v.header v.fits in
      let (got, page) = read_at_page page_size off file buf rest p v.page b at in
      let long : ltb (length (slice off page_size file)) page_header_size ≡ false =
        rw (got, whole) (le→ltb _ _ (omega arith)) in
      let int : leb (2 ^ 63) p.0.data_len ≡ false = ground arith in
      let room : ltb (page_size - page_header_size) p.0.data_len ≡ false =
        le→ltb _ _ (omega arith) in
      rw (
        long,
        page,
        take-raw_page page_size p v.header,
        decode-encode_page_header p.0 v.header v.flags (decode_live v.page),
        decode_live v.page,
        v.live,
        int,
        room,
        slice-raw_page page_size p.0.data_len p v.header v.names_len,
      )

  read_pages-rest :
      (ps : List Page) (off : ℕ) (buf acc : Bytes) (crc : ℕ) (rest : Bytes)
      → page_size < 2 ^ 32
      → length buf ≡ page_size
      → All (IsLivePage page_size) ps
      → drop off file ≡ raw_pages page_size ps ++ rest
      → read_pages (length ps) false file off page_size buf acc crc
        ≡ ok (acc ++ flatten (payloads ps), crc)
  unfolding raw_pages flatten
  read_pages-rest [] off buf acc crc rest small b v at = rw append-nil (unfold read_pages in refl)
  read_pages-rest (p ∷ ps) off buf acc crc rest small b v at =
      let here : drop off file ≡ raw_page page_size p ++ (raw_pages page_size ps ++ rest) =
        at ∙ append_assoc (raw_page page_size p) (raw_pages page_size ps) rest in
      let whole = length-raw_page page_size p v.0.header v.0.fits in
      let next : drop (off + page_size) file ≡ raw_pages page_size ps ++ rest =
        sym (drop-drop page_size off file)
        ∙ ap (drop page_size) here
        ∙ drop_seam page_size (raw_page page_size p) _ whole in
      read_page_step (length ps) false off buf acc crc p _ small b v.0 here
      ∙ read_pages-rest ps (off + page_size) _ (acc ++ p.1) crc rest small whole v.1 next
      ∙ ap (λ (d : Bytes). ok (d, crc)) (append_assoc acc p.1 (flatten (payloads ps)))

  -- All the pages of a chunk: the payload joined, and the checksum of the first page.
  pub read_pages_lem :
      (p : Page) (ps : List Page) (off : ℕ) (buf rest : Bytes)
      → page_size < 2 ^ 32
      → length buf ≡ page_size
      → All (IsLivePage page_size) (p ∷ ps)
      → drop off file ≡ raw_pages page_size (p ∷ ps) ++ rest
      → read_pages (length (p ∷ ps)) true file off page_size buf [] 0
        ≡ ok (flatten (payloads (p ∷ ps)), p.0.crc32)
  unfolding raw_pages flatten
  read_pages_lem p ps off buf rest small b v at =
      let here : drop off file ≡ raw_page page_size p ++ (raw_pages page_size ps ++ rest) =
        at ∙ append_assoc (raw_page page_size p) (raw_pages page_size ps) rest in
      let whole = length-raw_page page_size p v.0.header v.0.fits in
      let next : drop (off + page_size) file ≡ raw_pages page_size ps ++ rest =
        sym (drop-drop page_size off file)
        ∙ ap (drop page_size) here
        ∙ drop_seam page_size (raw_page page_size p) _ whole in
      read_page_step (length ps) true off buf [] 0 p _ small b v.0 here
      ∙ read_pages-rest ps (off + page_size) _ p.1 p.0.crc32 rest small whole v.1 next

-- The pages of a chunk stand where its index entry says.
pub record IsStored (e : Engine) (entry : ChunkEntry) (p : Page) (ps : List Page) : Type 0 where
  pub before : Bytes
  pub rest : Bytes
  pub page_size_lt : e.page_size < 2 ^ 32
  pub offset : length before ≡ entry.page_offset
  pub there :
      read_file entry.segment_id e.files ≡ some (before ++ (raw_pages e.page_size (p ∷ ps) ++ rest))
  pub counted : entry.page_count ≡ length (p ∷ ps)
  pub live : All (IsLivePage e.page_size) (p ∷ ps)

-- ReadChunk of a stored chunk joins its pages, whatever the pooled page buffer holds, and
-- refuses them if the joined bytes do not have the checksum of the first page.
pub read_chunk_lem :
    (crc32 : Bytes → ℕ) (e : Engine) (buf : Bytes) (entry : ChunkEntry) (p : Page) (ps : List Page)
    → IsStored e entry p ps
    → length buf ≡ e.page_size
    → let stored = flatten (payloads (p ∷ ps)) in
      read_chunk crc32 e buf entry ≡ (
        if crc32 stored == p.0.crc32
        then decrypt_chunk e.cipher entry stored
        else err (corruption entry.segment_id entry.page_offset "CRC mismatch"))
unfolding read_chunk
read_chunk_lem crc32 e buf entry p ps s b =
    let count : (if ltb entry.page_count 1 then 1 else entry.page_count) ≡ length (p ∷ ps) =
      ground (arith, s.counted) in
    let here = drop_seam entry.page_offset s.before _ s.offset in
    rw
      (
        s.there,
        read_chunk,
        count,
        read_pages_lem e.page_size _ p ps entry.page_offset buf s.rest s.page_size_lt b s.live here,
      )
      (ground arith)
