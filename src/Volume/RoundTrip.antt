-- ===== src/Volume/RoundTrip.antt =====
-- From appendChunk through Flush to ReadChunk (volume.go).
use mathlib.Core.List.{flatten}
use mathlib.Core.Path.{subst}
use blobs.Base.{
  ℕ, suc, ◌+◌, ◌-◌, ◌*◌, ◌^◌, ◌<◌, ◌≤◌, ◌≡◌, refl, sym, ap, ◌∙◌, true, false, ◌==◌, ==_refl, List,
  [], ◌∷◌, ◌++◌, some, length, take, drop, All, arith, append-nil, Bool-cases, inl, inr,
  append_assoc,
}
use blobs.Base.Bytes.{Bytes}
use blobs.Object.{ChunkEntry}
use blobs.Volume.Flags.{IsFlags, encode_magic_flags, is_deleted}
use blobs.Volume.Header.{PageHeader, IsHeader, page_header_size}
use blobs.Volume.Segment.{SegFile, append_chunk, pages_for}
use blobs.Volume.Segment.Pages.{
  pieces, pages_of, append_chunk_lem, pieces-join, pieces-short, length-pieces,
}
use blobs.Volume.Segment.Layout.{
  raw_pages, payloads, page_list, header_of, pages_of-raw_pages, payloads-page_list,
  length-page_list, page_list-IsLivePage,
}
use blobs.Volume.Files.{read_file, read_file-write_file_self}
use blobs.Volume.Engine.{Engine, read_chunk, decrypt_chunk}
use blobs.Volume.Engine.Read.{IsStored, read_chunk_lem}
use blobs.Volume.Write.{flush_seg, append_file}

-- The segment's file and its writer agree: the writer's offset is the file's length and what it
-- holds back.
pub record IsWriter (e : Engine) (sf : SegFile) : Type 0 where
  pub file : Bytes
  pub there : read_file sf.seq e.files ≡ some file
  pub offset : length (file ++ sf.pending) ≡ sf.offset

-- What the engine puts into a header before it appends: a page's magic word without the deleted
-- flag, and the checksum of the payload.
pub record IsFresh (crc32 : Bytes → ℕ) (hdr : PageHeader) (payload : Bytes) : Type 0 where
  pub header : IsHeader hdr
  pub flags : ℕ
  pub is_flags : IsFlags flags
  pub magic : hdr.magic_flags ≡ encode_magic_flags flags
  pub live : is_deleted flags ≡ false
  pub crc : crc32 payload ≡ hdr.crc32

-- A payload has a first piece, also the empty one.
pieces-cons :
    (n capacity : ℕ) (p : Bytes)
    → (ss : List Bytes) × (pieces (suc n) capacity p ≡ take capacity p ∷ ss)
unfolding pieces
pieces-cons n capacity p = elim (Bool-cases (length (drop capacity p) == 0)) [
  | inl done ↦ ([], rw done refl)
  | inr more ↦ (pieces n capacity (drop capacity p), rw more refl)
]

abbrev place : ChunkEntry → ℕ → ℕ → ℕ → ChunkEntry
place entry seq offset count = record entry {
  segment_id = seq;
  page_offset = offset;
  page_count = count;
}

module _ (crc32 : Bytes → ℕ) (e : Engine) (sf : SegFile) (hdr : PageHeader) (payload : Bytes)
    (entry : ChunkEntry) (small : e.page_size < 2 ^ 32) (room : page_header_size < e.page_size)
    (w : IsWriter e sf) (fresh : IsFresh crc32 hdr payload) where
  capacity : ℕ
  capacity = e.page_size - page_header_size

  abbrev all_pieces : List Bytes
  all_pieces = pieces (suc (length payload)) (e.page_size - page_header_size) payload

  abbrev written : SegFile
  written = record sf {
    pending = sf.pending ++ pages_of hdr e.page_size true all_pieces;
    offset = sf.offset + e.page_size * pages_for (length payload) (e.page_size - page_header_size);
  }

  abbrev placed : ChunkEntry
  placed =
      place entry sf.seq sf.offset (pages_for (length payload) (e.page_size - page_header_size))

  stored :
      (s : Bytes) (ss : List Bytes)
      → all_pieces ≡ s ∷ ss
      → IsStored (flush_seg written e) placed (header_of hdr true s, s) (page_list hdr false ss)
  unfolding flush_seg append_file page_list
  stored s ss cut =
      let count =
        length-pieces (e.page_size - page_header_size) (omega arith) (suc (length payload)) payload
          (omega arith) in
      let short =
        pieces-short (e.page_size - page_header_size) (omega arith) (suc (length payload)) payload
          (omega arith) in
      record {
        before = w.file ++ sf.pending;
        rest = [];
        page_size_lt = small;
        offset = w.offset;
        there =
            rw
              (
                w.there,
                append_file,
                pages_of-raw_pages hdr e.page_size true all_pieces,
                cut,
                read_file-write_file_self,
              )
              (ap (λ (f : Bytes). some f)
                (sym (
                    append_assoc w.file sf.pending
                      (raw_pages e.page_size (page_list hdr true (s ∷ ss))))
                  ∙ ap (λ (t : Bytes). (w.file ++ sf.pending) ++ t) (sym (append-nil _))));
        counted = sym count ∙ ap length cut ∙ ap suc (sym (length-page_list hdr false ss));
        live =
            page_list-IsLivePage hdr e.page_size true (s ∷ ss) fresh.flags small room fresh.header
              fresh.is_flags fresh.magic fresh.live
              (subst (All (λ (b : Bytes). length b ≤ e.page_size - page_header_size)) cut short);
      }

  -- appendChunk of any payload succeeds, and once its segment is flushed, ReadChunk at the place
  -- that appendChunk returned gives the payload to decryption, whatever the pooled page buffer
  -- holds. This is for a page size above the header's and below 2^32, a segment whose writer agrees
  -- with its file, and a header of a live page with the payload's checksum.
  pub append_chunk-read_chunk :
      (buf : Bytes)
      → length buf ≡ e.page_size
      → (sf' : SegFile) × (offset : ℕ) × (count : ℕ) × (append_chunk sf hdr payload e.page_size
          ≡ some (sf', offset, count))
        × (read_chunk crc32 (flush_seg sf' e) buf (place entry sf.seq offset count)
            ≡ decrypt_chunk e.cipher (place entry sf.seq offset count) payload)
  unfolding flush_seg page_list
  append_chunk-read_chunk buf b =
      let (ss, cut) = pieces-cons (length payload) (e.page_size - page_header_size) payload in
      let s = take (e.page_size - page_header_size) payload in
      let read =
        read_chunk_lem crc32 (flush_seg written e) buf placed (header_of hdr true s, s)
          (page_list hdr false ss) (stored s ss cut) b in
      let joined : flatten (payloads (page_list hdr true (s ∷ ss))) ≡ payload =
        ap flatten (payloads-page_list hdr true (s ∷ ss) ∙ sym cut)
        ∙ pieces-join (e.page_size - page_header_size) (omega arith) (suc (length payload)) payload
            (omega arith) in
      (
        written,
        sf.offset,
        pages_for (length payload) (e.page_size - page_header_size),
        append_chunk_lem hdr payload e.page_size sf room,
        rw (read, joined, fresh.crc, ==_refl hdr.crc32),
      )
