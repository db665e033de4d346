-- ===== src/Volume/Segment/Append.antt =====
-- What appendChunk (volume.go) leaves in the segment, as whole pages.
use mathlib.Core.List.{flatten}
use native.Mathlib.Nat.{mul-suc}
use blobs.Base.{
  ℕ, suc, ◌+◌, ◌-◌, ◌*◌, ◌^◌, ◌≤◌, ◌<◌, ◌≡◌, sym, ap, ◌∙◌, Bool, true, false, List, [], ◌∷◌, ◌++◌,
  some, length, All, arith, length-append,
}
use blobs.Base.Bytes.{Bytes}
use blobs.Volume.Header.{PageHeader, IsHeader, page_header_size}
use blobs.Volume.Segment.{SegFile, append_chunk, pages_for}
use blobs.Volume.Segment.Pages.{
  pieces, append_chunk_lem, page_IsHeader, pieces-join, pieces-short, length-pieces,
}
use blobs.Volume.Segment.Layout.{
  Page, raw_page, raw_pages, header_of, page_list, payloads, pages_of-raw_pages, payloads-page_list,
  length-page_list, length-raw_page,
}

length-raw_pages :
    (hdr : PageHeader) (page_size : ℕ) (first : Bool) (ss : List Bytes)
    → page_size < 2 ^ 32
    → page_header_size < page_size
    → IsHeader hdr
    → All (λ s. length s ≤ page_size - page_header_size) ss
    → length (raw_pages page_size (page_list hdr first ss)) ≡ page_size * length ss
unfolding raw_pages page_list
length-raw_pages hdr page_size first [] fits room v h = omega arith
length-raw_pages hdr page_size first (s ∷ ss) fits room v h = omega (
  arith,
  length-append {0} (raw_page page_size (header_of hdr first s, s))
      (raw_pages page_size (page_list hdr false ss)),
  length-raw_page page_size (header_of hdr first s, s)
      (page_IsHeader hdr page_size s first fits v (omega arith)) (omega arith),
  length-raw_pages hdr page_size false ss fits room v h.1,
  mul-suc page_size (length ss),
)

-- The pages of a payload: pieces with room for the header, the first with the header's checksum and
-- the later ones with none.
abbrev pub chunk_pages : PageHeader → ℕ → Bytes → List Page
chunk_pages hdr page_size payload =
    page_list hdr true (pieces (suc (length payload)) (page_size - page_header_size) payload)

-- appendChunk ends, and appends whole pages at the old end of the segment: each is its header, its
-- piece and zeros up to the page size, the pieces make up the payload, and there are as many as a
-- reader computes from the payload's length. The page size is above the header's and below 2^32,
-- and the header's fields fit their widths.
pub append_chunk-chunk_pages :
    (hdr : PageHeader) (payload : Bytes) (page_size : ℕ) (sf : SegFile)
    → page_header_size < page_size
    → page_size < 2 ^ 32
    → IsHeader hdr
    → let pages = chunk_pages hdr page_size payload in
      (append_chunk sf hdr payload page_size
        ≡ some (
          record sf {
            pending = sf.pending ++ raw_pages page_size pages;
            offset = sf.offset + length (raw_pages page_size pages);
          },
          sf.offset,
          length pages,
        ))
      × (length pages ≡ pages_for (length payload) (page_size - page_header_size))
      × (length (raw_pages page_size pages) ≡ page_size * length pages)
      × (flatten (payloads pages) ≡ payload)
append_chunk-chunk_pages hdr payload page_size sf room fits v =
    let capacity = page_size - page_header_size in
    let ss = pieces (suc (length payload)) capacity payload in
    let pages = chunk_pages hdr page_size payload in
    let count : length pages ≡ pages_for (length payload) capacity =
      length-page_list hdr true ss
      ∙ length-pieces capacity (omega arith) (suc (length payload)) payload (omega arith) in
    let size : length (raw_pages page_size pages) ≡ page_size * length pages =
      length-raw_pages hdr page_size true ss fits room v
        (pieces-short capacity (omega arith) (suc (length payload)) payload (omega arith))
      ∙ ap (λ (n : ℕ). page_size * n) (sym (length-page_list hdr true ss)) in
    let bytes = pages_of-raw_pages hdr page_size true ss in
    (
      append_chunk_lem hdr payload page_size sf room ∙ rw (bytes, sym count, sym size),
      count,
      size,
      ap flatten (payloads-page_list hdr true ss)
          ∙ pieces-join capacity (omega arith) (suc (length payload)) payload (omega arith),
    )
