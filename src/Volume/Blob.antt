-- ===== src/Volume/Blob.antt =====
-- WriteBlob (volume.go). The pieces that the chunker cuts, and the error that ends it, none for
-- io.EOF, are arguments; SHA-256, CRC-32 and what the random source gives for each chunk too.
pub mod Pieces
pub mod Owner
pub mod Tests
use mathlib.Core.List.{flatten}
use blobs.Base.{ℕ, ◌+◌, ◌==◌, if◌then◌else◌, List, [], ◌∷◌, Option, none, some, length, replicate}
use blobs.Base.Bytes.{Bytes}
use blobs.Base.Int.{pos}
use blobs.Encryption.{Cipher, Sealed, seal, wrap_err}
use blobs.Errors.{Error, Result, ok, err, failed, wrapped, panicked}
use blobs.Object.{ChunkEntry}
use blobs.Volume.Address.{blob_id_from_digest, chunk_id_from_content}
use blobs.Volume.Engine.{Engine}
use blobs.Volume.Flags.{encode_magic_flags, flag_last_chunk}
use blobs.Volume.Header.{PageHeader}
use blobs.Volume.Segment.{append_chunk}
use blobs.Volume.Wal.{encode_wal_entry}
use blobs.Volume.Write.{
  Outcome, ◌>>=◌, append_file, ensure_active, roll_if_needed, flush, patch_page,
}

pub record WriteResult : Type 0 where
  pub blob_id : Bytes
  pub total_size : ℕ
  pub chunks : List ChunkEntry

-- What is stored of a piece: itself, or its ciphertext with the nonce and the tag.
unfoldable pub seal_payload : Option Cipher → Result Bytes → Bytes → Bytes → Result Sealed
seal_payload none random chunk_id payload =
    ok (record { nonce = []; ciphertext = payload; tag = [] })
seal_payload (some c) random chunk_id payload =
    wrap_err (seal c random chunk_id payload) (wrapped "volume: encrypt chunk")

-- appendChunk on the active segment: its number, the page offset and the page count.
unfoldable pub append_active : PageHeader → Bytes → Engine → Outcome (ℕ × ℕ × ℕ)
append_active hdr stored e = elim e.active [
  | none ↦ (e, err (panicked "nil segment"))
  | some sf ↦ elim (append_chunk sf hdr stored e.page_size) [
    | none ↦ (e, err (failed "volume: append chunk"))
    | some (sf', page_offset, page_count) ↦
        (record e { active = some sf' }, ok (sf.seq, page_offset, page_count))
  ]
]

-- The blob's flags, BlobID and TotalChunks in every page written, the last of them flagged.
unfoldable pub patch_pages : Bytes → ℕ → List ChunkEntry → Engine → Outcome (Unit {0})
patch_pages digest total_chunks [] e = (e, ok tt)
patch_pages digest total_chunks (c ∷ cs) e =
    let flags = if length cs == 0 then flag_last_chunk else 0 in
    patch_page e c.segment_id c.page_offset digest total_chunks flags >>= λ e' _.
    patch_pages digest total_chunks cs e'

unfoldable pub own_chunks : Bytes → List ChunkEntry → List ChunkEntry
own_chunks blob_id [] = []
own_chunks blob_id (c ∷ cs) = record c { blob_id = blob_id } ∷ own_chunks blob_id cs

unfoldable pub append_wal : Bytes → List ChunkEntry → Engine → Outcome (Unit {0})
append_wal blob_id chunks e = elim e.active [
  | none ↦ (e, err (panicked "nil segment"))
  | some sf ↦
      (record e { wals = append_file sf.seq (encode_wal_entry blob_id chunks) e.wals }, ok tt)
]

module _ (sha256 : Bytes → Bytes) (crc32 : Bytes → ℕ) (random : ℕ → Result Bytes) (now : ℕ) where
  -- A round of the chunk loop.
  unfoldable pub write_piece : ℕ → Bytes → Engine → Outcome ChunkEntry
  write_piece chunk_seq payload e =
      let digest = sha256 payload in
      let chunk_id = chunk_id_from_content digest in
      elim (seal_payload e.cipher (random chunk_seq) chunk_id payload) [
        | err x ↦ (e, err x)
        | ok sealed ↦
            let hdr : PageHeader = record {
              data_len = length sealed.ciphertext;
              chunk_id = digest;
              blob_id = replicate 32 0;
              chunk_seq = chunk_seq;
              total_chunks = 0;
              crc32 = crc32 sealed.ciphertext;
              magic_flags = encode_magic_flags 0;
            } in
            ensure_active now e >>= λ e₁ _. roll_if_needed now e₁ >>= λ e₂ _.
            append_active hdr sealed.ciphertext e₂ >>= λ e₃ place.
            let entry : ChunkEntry = record {
              chunk_id = chunk_id;
              blob_id = [];
              segment_id = place.0;
              namespace_id = e₃.ns_id;
              page_offset = place.1;
              page_count = place.2;
              len = length payload;
              seq_no = chunk_seq;
              ref_count = pos 0;
              nonce = sealed.nonce;
              tag = sealed.tag;
            } in
            (e₃, ok entry)
      ]

  unfoldable pub write_pieces : ℕ → List Bytes → Option Error → Engine → Outcome (List ChunkEntry)
  write_pieces chunk_seq [] none e = (e, ok [])
  write_pieces chunk_seq [] (some x) e = (e, err (wrapped "volume: chunk input" x))
  write_pieces chunk_seq (p ∷ ps) failure e = write_piece chunk_seq p e >>= λ e₁ c.
      write_pieces (chunk_seq + 1) ps failure e₁ >>= λ e₂ cs. (e₂, ok (c ∷ cs))

  -- WriteBlob from the end of the chunk loop on.
  unfoldable pub finish_blob : Bytes → List ChunkEntry → Engine → Outcome WriteResult
  finish_blob content chunks e =
      let digest = sha256 content in
      let blob_id = blob_id_from_digest digest in
      let owned = own_chunks blob_id chunks in
      let result : WriteResult = record {
        blob_id = blob_id;
        total_size = length content;
        chunks = owned;
      } in
      if length chunks == 0
      then (e, err (failed "volume: refusing to store empty blob"))
      else (flush e >>= λ e₁ _. patch_pages digest (length chunks) chunks e₁ >>= λ e₂ _.
          flush e₂ >>= λ e₃ _. append_wal blob_id owned e₃ >>= λ e₄ _. (e₄, ok result))

  unfoldable pub write_blob : List Bytes → Option Error → Engine → Outcome WriteResult
  write_blob pieces failure e =
      write_pieces 0 pieces failure e >>= λ e' chunks. finish_blob (flatten pieces) chunks e'
