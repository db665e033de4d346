-- ===== src/Volume/Scan/Whole.antt =====
-- The walks over whole segments: the file's length is fuel enough for them.
use blobs.Base.{
  ℕ, ◌≤◌, ◌<◌, ◌≡◌, ap, List, [], ◌∷◌, length, drop, All, arith, length-append, length-drop,
}
use blobs.Base.Bytes.{Bytes}
use blobs.Errors.{ok}
use blobs.Volume.Header.{page_header_size, seg_header_size}
use blobs.Volume.Segment.Layout.{Page, IsPage, IsLivePage, raw_page, raw_pages, length-raw_page}
use blobs.Volume.Engine.{Engine}
use blobs.Volume.Scan.{scan_seg_file, RewriteState, rewrite_loop}
use blobs.Volume.Scan.Walk.{page_entries, after_rewrite, scan_loop-pages, rewrite_loop-pages}

module _ (page_size : ℕ) where
  count_pages :
      (ps : List Page)
      → 0 < page_size
      → All (IsPage page_size) ps
      → length ps ≤ length (raw_pages page_size ps)
  unfolding raw_pages
  count_pages [] pos v = omega arith
  count_pages (p ∷ ps) pos v = omega (
    arith,
    count_pages ps pos v.1,
    length-append {0} (raw_page page_size p) (raw_pages page_size ps),
    length-raw_page page_size p v.0.header v.0.fits,
  )

  enough :
      (ps : List Page) (file : Bytes)
      → page_header_size < page_size
      → All (IsPage page_size) ps
      → seg_header_size ≤ length file
      → drop seg_header_size file ≡ raw_pages page_size ps
      → length ps < length file
  enough ps file room v long at =
      omega (arith, count_pages ps (omega arith) v, ap length at, length-drop seg_header_size file)

  All-pages : (ps : List Page) → All (IsLivePage page_size) ps → All (IsPage page_size) ps
  All-pages [] v = tt
  All-pages (p ∷ ps) v = (v.0.page, All-pages ps v.1)

  -- RewriteSegment's walk over a segment of live pages copies all of them as they stand, in order,
  -- frees nothing, and reports each page by an entry of one page and of that page's length. The page
  -- size is above the header's.
  rewrite_loop-segment :
      (ns_id : Bytes) (seq : ℕ) (ps : List Page) (old : Bytes) (st : RewriteState)
      → page_header_size < page_size
      → All (IsLivePage page_size) ps
      → seg_header_size ≤ length old
      → drop seg_header_size old ≡ raw_pages page_size ps
      → rewrite_loop (length old) ns_id seq page_size seg_header_size old st
        ≡ (after_rewrite ns_id seq page_size st ps, ok tt)
  rewrite_loop-segment ns_id seq ps old st room v long at =
      rewrite_loop-pages ns_id seq page_size ps (length old) seg_header_size old st room
        (enough ps old room (All-pages ps v) long at) v at

-- ScanSegments yields one entry for each page of a segment, in order: a chunk of several pages comes
-- as several entries, each of one page and of that page's length. The page size is above the
-- header's.
pub scan_seg_file-pages :
    (e : Engine) (seq : ℕ) (ps : List Page) (file : Bytes)
    → page_header_size < e.page_size
    → All (IsPage e.page_size) ps
    → seg_header_size ≤ length file
    → drop seg_header_size file ≡ raw_pages e.page_size ps
    → scan_seg_file e seq file ≡ page_entries e.ns_id seq e.page_size seg_header_size ps
unfolding scan_seg_file
scan_seg_file-pages e seq ps file room v long at =
    scan_loop-pages e.ns_id seq e.page_size ps (length file) seg_header_size file room
      (enough e.page_size ps file room v long at) v at
