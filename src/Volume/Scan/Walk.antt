-- ===== src/Volume/Scan/Walk.antt =====
-- What the walks see of segments that appendChunk filled: pages, one by one, and no chunks.
use blobs.Base.{
  ℕ, zero, suc, ◌+◌, ◌-◌, ◌*◌, ◌<◌, ◌≡◌, sym, ap, ◌∙◌, ltb, false, List, [], ◌∷◌, ◌++◌, length,
  take, drop, replicate, All, arith, append_assoc, append-nil, length-append, drop_seam, drop-drop,
  le→ltb, take-append_left, length-replicate, map,
}
use blobs.Base.Bytes.{Bytes, slice}
use blobs.Base.Int.{pos}
use blobs.Errors.{ok}
use blobs.Volume.Address.{blob_id_from_digest, chunk_id_from_content}
use blobs.Object.{ChunkEntry}
use blobs.Volume.Header.{
  PageHeader, page_header_size, decode-encode_page_header, length-encode_page_header,
  encode_page_header,
}
use blobs.Volume.Segment.{append_raw, write, pages_for_uint64}
use blobs.Volume.Segment.Pages.{pages_for_one}
use blobs.Volume.Segment.Layout.{
  Page, IsPage, IsLivePage, raw_page, raw_pages, length-raw_page, take-raw_page, decode_live,
}
use blobs.Volume.Engine.Read.{read_at_page}
use blobs.Volume.Scan.{flags_of, entry_of_header, scan_loop, RewriteState, rewrite_loop}

module _ (ns_id : Bytes) (seq page_size : ℕ) where
  -- The entry of a page at an offset.
  abbrev pub page_entry : ℕ → Page → ChunkEntry
  page_entry offset p = record {
    chunk_id = chunk_id_from_content p.0.chunk_id;
    blob_id = blob_id_from_digest p.0.blob_id;
    segment_id = seq;
    namespace_id = ns_id;
    page_offset = offset;
    page_count = 1;
    len = length p.1;
    seq_no = p.0.chunk_seq;
    ref_count = pos 0;
    nonce = [];
    tag = [];
  }

  -- One entry for each page.
  abbrev pub page_entries : ℕ → List Page → List (ChunkEntry × PageHeader)
  page_entries offset [] = []
  page_entries offset (p ∷ ps) = (page_entry offset p, p.0) ∷ page_entries (offset + page_size) ps

  header_at :
      (file : Bytes) (offset : ℕ) (p : Page) (rest : Bytes)
      → IsPage page_size p
      → drop offset file ≡ raw_page page_size p ++ rest
      → slice offset page_header_size file ≡ encode_page_header p.0
  header_at file offset p rest v at =
      ap (take page_header_size) at
      ∙ take-append_left page_header_size (raw_page page_size p) rest
          (omega (arith, length-raw_page page_size p v.header v.fits, v.fits))
      ∙ take-raw_page page_size p v.header

  one_page :
      (p : Page)
      → page_header_size < page_size
      → IsPage page_size p
      → pages_for_uint64 p.0.data_len (page_size - page_header_size) ≡ 1
  unfolding pages_for_uint64
  one_page p room v = ground (
    arith,
    pages_for_one (page_size - page_header_size) (omega arith) p.0.data_len
        (omega (arith, v.names_len, v.fits)),
  )

  entry_of_page :
      (offset : ℕ) (p : Page)
      → page_header_size < page_size
      → IsPage page_size p
      → entry_of_header ns_id seq offset (page_size - page_header_size) p.0 ≡ page_entry offset p
  entry_of_page offset p room v = let one = one_page p room v in let len = v.names_len in cc

  behind :
      (file : Bytes) (offset : ℕ) (p : Page) (rest : Bytes)
      → IsPage page_size p
      → drop offset file ≡ raw_page page_size p ++ rest
      → drop (offset + page_size) file ≡ rest
  behind file offset p rest v at =
      sym (drop-drop page_size offset file)
      ∙ ap (drop page_size) at
      ∙ drop_seam page_size (raw_page page_size p) rest
          (length-raw_page page_size p v.header v.fits)

  span :
      (p : Page) (offset : ℕ)
      → page_header_size < page_size
      → IsPage page_size p
      → offset + pages_for_uint64 p.0.data_len (page_size - page_header_size) * page_size
        ≡ offset + page_size
  span p offset room v = rw (one_page p room v) (omega arith)

  pub scan_loop-pages :
      (ps : List Page) (fuel offset : ℕ) (file : Bytes)
      → page_header_size < page_size
      → length ps < fuel
      → All (IsPage page_size) ps
      → drop offset file ≡ raw_pages page_size ps
      → scan_loop fuel ns_id seq page_size offset file ≡ page_entries offset ps
  unfolding scan_loop raw_pages
  scan_loop-pages ps zero offset file room h v at = elim h [ ]
  scan_loop-pages [] (suc fuel) offset file room h v at = rw at
  scan_loop-pages (p ∷ ps) (suc fuel) offset file room h v at =
      let head = header_at file offset p (raw_pages page_size ps) v.0 at in
      let long : ltb (length (encode_page_header p.0)) page_header_size ≡ false =
        le→ltb _ _ (omega (arith, length-encode_page_header p.0 v.0.header)) in
      let next =
        scan_loop-pages ps fuel (offset + page_size) file room (omega arith) v.1
          (behind file offset p (raw_pages page_size ps) v.0 at) in
      rw
        (
          head,
          long,
          decode-encode_page_header p.0 v.0.header v.0.flags (decode_live v.0),
          span p offset room v.0,
          next,
        )
        (ap (λ (x : ChunkEntry). (x, p.0) ∷ page_entries (offset + page_size) ps)
          (entry_of_page offset p room v.0))

  -- The pages that a rewrite keeps, at their new places.
  abbrev pub moved : ℕ → List Page → List ChunkEntry
  moved offset ps = map (λ q. q.0) (page_entries offset ps)

  abbrev pub after_rewrite : RewriteState → List Page → RewriteState
  after_rewrite st ps = record st {
    target = record st.target {
      pending = st.target.pending ++ raw_pages page_size ps;
      offset = st.target.offset + length (raw_pages page_size ps);
    };
    relocated = st.relocated ++ moved st.target.offset ps;
  }

  -- One round of a rewrite at a live page, which is reported as an entry.
  abbrev copied_as : RewriteState → Page → ChunkEntry → RewriteState
  copied_as st p entry = record st {
    target = record st.target {
      pending = st.target.pending ++ raw_page page_size p;
      offset = st.target.offset + length (raw_page page_size p);
    };
    relocated = st.relocated ++ (entry ∷ []);
  }

  abbrev copied : RewriteState → Page → RewriteState
  copied st p = copied_as st p (page_entry st.target.offset p)

  rewrite_step :
      (p : Page) (fuel offset : ℕ) (old rest : Bytes) (st : RewriteState)
      → page_header_size < page_size
      → IsLivePage page_size p
      → drop offset old ≡ raw_page page_size p ++ rest
      → rewrite_loop (suc fuel) ns_id seq page_size offset old st
        ≡ rewrite_loop fuel ns_id seq page_size (offset + page_size) old (copied st p)
  unfolding rewrite_loop append_raw write
  rewrite_step p fuel offset old rest st room v at =
      let head = header_at old offset p rest v.page at in
      let long : ltb (length (encode_page_header p.0)) page_header_size ≡ false =
        le→ltb _ _ (omega (arith, length-encode_page_header p.0 v.header)) in
      let m = decode_live v.page in
      let one : pages_for_uint64 p.0.data_len (page_size - page_header_size) * page_size
          ≡ page_size =
        rw (one_page p room v.page) (omega arith) in
      let (_, page) =
        read_at_page page_size offset old (replicate page_size 0) rest p v.page
          (length-replicate page_size 0) at in
      rw
        (
          head,
          long,
          decode-encode_page_header p.0 v.header v.flags m,
          one,
          page,
          flags_of,
          m,
          v.live,
        )
        (ap
          (λ (x : ChunkEntry).
            rewrite_loop fuel ns_id seq page_size (offset + page_size) old (copied_as st p x))
          (entry_of_page st.target.offset p room v.page))

  pub rewrite_loop-pages :
      (ps : List Page) (fuel offset : ℕ) (old : Bytes) (st : RewriteState)
      → page_header_size < page_size
      → length ps < fuel
      → All (IsLivePage page_size) ps
      → drop offset old ≡ raw_pages page_size ps
      → rewrite_loop fuel ns_id seq page_size offset old st ≡ (after_rewrite st ps, ok tt)
  unfolding raw_pages
  rewrite_loop-pages ps zero offset old st room h v at = elim h [ ]
  rewrite_loop-pages [] (suc fuel) offset old st room h v at =
      unfold rewrite_loop in
      rw at (ground (arith, append-nil st.target.pending, append-nil st.relocated))
  rewrite_loop-pages (p ∷ ps) (suc fuel) offset old st room h v at =
      let rest = raw_pages page_size ps in
      let whole = length-raw_page page_size p v.0.header v.0.fits in
      rewrite_step p fuel offset old rest st room v.0 at
      ∙ rewrite_loop-pages ps fuel (offset + page_size) old (copied st p) room (omega arith) v.1
          (behind old offset p rest v.0.page at)
      ∙ rw (whole) (
          ground (
            arith,
            append_assoc st.target.pending (raw_page page_size p) rest,
            append_assoc st.relocated (page_entry st.target.offset p ∷ [])
                (moved (st.target.offset + page_size) ps),
            length-append {0} (raw_page page_size p) rest,
            whole,
          ))
