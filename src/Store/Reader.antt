-- ===== src/Store/Reader.antt =====
-- chunkReader (store.go): a blob as a stream with Read and Seek over its chunks. The engine's
-- ReadChunk is the argument `load`. Close's release of the store's guard is left out.
pub mod Rounds
pub mod Stream
use blobs.Base.{
  ℕ, zero, suc, ◌+◌, ◌-◌, min, Bool, true, false, ltb, if◌then◌else◌, List, [], ◌∷◌, length, take,
  drop,
}
use blobs.Base.Bytes.{Bytes}
use blobs.Base.Int.{ℤ, pos, negsuc, ◌+ℤ◌}
use blobs.Errors.{Result, ok, err, Error, eof, failed}
use blobs.Object.{ChunkEntry}

-- `buf_pos` is the Go field pos.
pub record ChunkReader : Type 0 where
  pub locations : List ChunkEntry
  pub total_size : ℕ
  pub idx : ℕ
  pub pending_skip : ℕ
  pub buf : Bytes
  pub buf_pos : ℕ
  pub abs_pos : ℕ

abbrev pub total_len : List ChunkEntry → ℕ
total_len [] = 0
total_len (c ∷ cs) = c.len + total_len cs

unfoldable pub new_chunk_reader : List ChunkEntry → ChunkReader
new_chunk_reader locations = record {
  locations = locations;
  total_size = total_len locations;
  idx = 0;
  pending_skip = 0;
  buf = [];
  buf_pos = 0;
  abs_pos = 0;
}

abbrev pub serve : ℕ → ChunkReader → ChunkReader × Result Bytes
serve n r =
    let got = take n (drop r.buf_pos r.buf) in
    (record r { buf_pos = r.buf_pos + length got; abs_pos = r.abs_pos + length got }, ok got)

-- The reader once the next chunk is in its buffer.
abbrev pub loaded : ChunkReader → Bytes → ChunkReader
loaded r payload =
    let skip = min r.pending_skip (length payload) in
    record r {
      idx = suc r.idx;
      pending_skip = r.pending_skip - skip;
      buf = drop skip payload;
      buf_pos = 0;
    }

-- A loop round loads a chunk; a blob's chunks and one more are rounds enough.
unfoldable pub read_loop :
    (ChunkEntry → Result Bytes) → ℕ → ℕ → ChunkReader → ChunkReader × Result Bytes
read_loop load zero n r = (r, err eof)
read_loop load (suc fuel) n r =
    if ltb r.buf_pos (length r.buf) then serve n r else elim (drop r.idx r.locations) [
      | [] ↦ (r, err eof)
      | c ∷ cs ↦ elim (load c) [
        | err e ↦ (r, err e)
        | ok payload ↦ read_loop load fuel n (loaded r payload)
      ]
    ]

-- Read into a slice of `n` bytes.
unfoldable pub read : (ChunkEntry → Result Bytes) → ℕ → ChunkReader → ChunkReader × Result Bytes
read load n r = read_loop load (suc (length r.locations)) n r

unfoldable pub resolve_chunk_offset : List ChunkEntry → ℕ → ℕ × ℕ
resolve_chunk_offset [] offset = (0, 0)
resolve_chunk_offset (c ∷ cs) offset =
    let later = resolve_chunk_offset cs (offset - c.len) in
    if ltb offset c.len then (0, offset) else (suc later.0, later.1)

pub data Whence : Type 0 where
  seek_start : Whence
  seek_current : Whence
  seek_end : Whence
  other : Whence

abbrev pub seek_to : ChunkReader → ℤ → ChunkReader × Result ℕ
seek_to r (negsuc n) =
    (r, err (failed "store: chunkReader.Seek: resulting offset must not be negative"))
seek_to r (pos target) =
    let (i, intra) = resolve_chunk_offset r.locations target in
    (record r { idx = i; pending_skip = intra; buf = []; buf_pos = 0; abs_pos = target }, ok target)

unfoldable pub seek : ℤ → Whence → ChunkReader → ChunkReader × Result ℕ
seek offset seek_start r = seek_to r offset
seek offset seek_current r = seek_to r (pos r.abs_pos +ℤ offset)
seek offset seek_end r = seek_to r (pos r.total_size +ℤ offset)
seek offset other r = (r, err (failed "store: chunkReader.Seek: invalid whence"))
