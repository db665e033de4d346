-- ===== src/Volume/Engine.antt =====
-- The engine of one namespace (volume.go): its state, its segments, and reads of chunks.
pub mod Read
use Prim.Native.String.{String}
use blobs.Base.{
  ℕ, zero, suc, ◌+◌, ◌-◌, ◌*◌, ◌^◌, Bool, true, false, not, ◌==◌, ltb, leb, if◌then◌else◌, List, [],
  ◌∷◌, ◌++◌, Option, none, some, length, take, drop, ◌||◌,
}
use blobs.Base.Bytes.{Bytes, slice, put_uint, uint, write_at}
use blobs.Errors.{
  Result, ok, err, Error, failed, wrapped, corruption, panicked, ◌>>=◌, ◌>>◌, refuse_if,
}
use blobs.Object.{ChunkEntry}
use blobs.Encryption.{Cipher, open_sealed}
use blobs.Volume.Flags.{is_deleted, set_flag, flag_deleted, encode_magic_flags, decode_magic_flags}
use blobs.Volume.Header.{page_header_size, seg_header_size, decode_page_header}
use blobs.Volume.Segment.{SegFile, encode_seg_file_header, segment_file_magic, ns_array}
use blobs.Volume.Files.{Files, read_file, write_file, remove_file, names}

-- `files` and `wals` are the directory. What the active segment's writer still holds is its
-- `pending`, not yet part of its file.
pub record Engine : Type 0 where
  pub files : Files
  pub wals : Files
  pub dirty : Bool
  pub active : Option SegFile
  pub next_seq : ℕ
  pub ns_id : Bytes
  pub page_size : ℕ
  pub chunk_size : ℕ
  pub max_segment_size : ℕ
  pub cipher : Option Cipher

abbrev pub os_error {ℓ} : {A : Type ℓ} → String → Result A
os_error m = err (failed m)

-- ReadAt of `n` bytes into `buf`: what lies behind the end of the file stays as it was in `buf`.
abbrev pub read_at : Bytes → ℕ → ℕ → Bytes → Bytes
read_at file off n buf = let got = slice off n file in got ++ drop (length got) buf

-- The page loop of ReadChunk. `buf` is the page buffer, which comes from a pool with any content
-- and serves all pages. A DataLen of 2^63 or more is a negative int, and slicing by it panics.
unfoldable pub read_pages : ℕ → Bool → Bytes → ℕ → ℕ → Bytes → Bytes → ℕ → Result (Bytes × ℕ)
read_pages zero first file off page_size buf acc crc = ok (acc, crc)
read_pages (suc pages) first file off page_size buf acc crc = do
  refuse_if (ltb (length (slice off page_size file)) page_header_size)
      (failed "volume: page too short")
  let page = read_at file off page_size buf
  hdr ← decode_page_header (take page_header_size page)
  flags ← decode_magic_flags hdr.magic_flags
  refuse_if (is_deleted flags) (failed "volume: chunk is deleted")
  refuse_if (leb (2 ^ 63) hdr.data_len) (panicked "slice bounds out of range")
  refuse_if (ltb (page_size - page_header_size) hdr.data_len)
      (failed "volume: DataLen exceeds capacity")
  read_pages pages false file (off + page_size) page_size page
      (acc ++ slice page_header_size hdr.data_len page) (if first then hdr.crc32 else crc)

-- Decryption behind the checksum.
unfoldable pub decrypt_chunk : Option Cipher → ChunkEntry → Bytes → Result Bytes
decrypt_chunk none entry stored = ok stored
decrypt_chunk (some c) entry stored = do
  refuse_if (length entry.nonce == 0 || length entry.tag == 0)
      (failed "volume: namespace is encrypted but this chunk's index record has no nonce/tag")
  elim (open_sealed c entry.chunk_id entry.nonce stored entry.tag) [
    | ok plaintext ↦ ok plaintext
    | err e ↦ err (corruption entry.segment_id entry.page_offset "decrypt chunk")
  ]

module _ (crc32 : Bytes → ℕ) where
  unfoldable pub read_chunk : Engine → Bytes → ChunkEntry → Result Bytes
  read_chunk e buf entry = elim (read_file entry.segment_id e.files) [
    | none ↦ err (corruption entry.segment_id entry.page_offset "segment file missing")
    | some file ↦ do
      let total_pages = if ltb entry.page_count 1 then 1 else entry.page_count
      (stored, crc) ← read_pages total_pages true file entry.page_offset e.page_size buf [] 0
      refuse_if (not (crc32 stored == crc))
          (corruption entry.segment_id entry.page_offset "CRC mismatch")
      decrypt_chunk e.cipher entry stored
  ]
