-- ===== src/Volume/Wal/RoundTrip.antt =====
-- A log entry is read back as it was appended.
use blobs.Base.{
  ℕ, ◌+◌, ◌^◌, ◌<◌, ◌≡◌, refl, ltb, false, List, [], ◌∷◌, ◌++◌, some, length, All, arith,
  length-append, append_assoc, take-append, drop_seam, le→ltb,
}
use blobs.Base.Int.{pos}
use blobs.Base.Bytes.{Bytes, put_uint, length-put_uint, uint-put_uint}
use blobs.Object.{ChunkEntry}
use blobs.Volume.Segment.{pages_for_uint64}
use blobs.Volume.Wal.{
  wal_magic, encode_wal_chunk, encode_wal_chunks, encode_wal_entry, read_bytes, read_uint,
  decode_wal_chunk, decode_wal_chunks, decode_wal_entry,
}

-- What the log keeps of a chunk: no reference count, nonce or tag, and a recomputed page count.
abbrev pub logged : Bytes → Bytes → ℕ → ℕ → ChunkEntry → ChunkEntry
logged ns_id blob_id capacity seq_no c = record c {
  blob_id = blob_id;
  namespace_id = ns_id;
  page_count = pages_for_uint64 c.len capacity;
  seq_no = seq_no;
  ref_count = pos 0;
  nonce = [];
  tag = [];
}

abbrev pub logged_from : Bytes → Bytes → ℕ → ℕ → List ChunkEntry → List ChunkEntry
logged_from ns_id blob_id capacity seq_no [] = []
logged_from ns_id blob_id capacity seq_no (c ∷ cs) =
    logged ns_id blob_id capacity seq_no c ∷ logged_from ns_id blob_id capacity (seq_no + 1) cs

-- The chunk fits the widths of the log's fields.
pub record FitsLog (c : ChunkEntry) : Type 0 where
  pub id_fits : length c.chunk_id < 256 ^ 2
  pub segment_fits : c.segment_id < 256 ^ 8
  pub offset_fits : c.page_offset < 256 ^ 8
  pub len_fits : c.len < 256 ^ 8

read_bytes_seam :
    (n : ℕ) (xs rest : Bytes) → length xs ≡ n → read_bytes n (xs ++ rest) ≡ some (xs, rest)
unfolding read_bytes
read_bytes_seam n xs rest h =
    let long : ltb (length (xs ++ rest)) n ≡ false =
      le→ltb _ _ (omega (arith, length-append xs rest)) in
    rw (long, take-append n xs rest h, drop_seam n xs rest h)

read_uint_seam :
    (n v : ℕ) (rest : Bytes) → v < 256 ^ n → read_uint n (put_uint n v ++ rest) ≡ some (v, rest)
unfolding read_uint
read_uint_seam n v rest h =
    rw (read_bytes_seam n (put_uint n v) rest (length-put_uint n v), read_uint, uint-put_uint n v h)

module _ (ns_id blob_id : Bytes) (capacity : ℕ) where
  decode-encode_wal_chunk :
      (c : ChunkEntry) (seq_no : ℕ) (rest : Bytes)
      → FitsLog c
      → decode_wal_chunk ns_id blob_id capacity seq_no (encode_wal_chunk c ++ rest)
        ≡ some (logged ns_id blob_id capacity seq_no c, rest)
  unfolding decode_wal_chunk encode_wal_chunk
  decode-encode_wal_chunk c seq_no rest f = simp (
    append_assoc,
    read_uint_seam 2 (length c.chunk_id) _ f.id_fits,
    read_bytes_seam (length c.chunk_id) c.chunk_id _ refl,
    read_uint_seam 8 c.segment_id _ f.segment_fits,
    read_uint_seam 8 c.page_offset _ f.offset_fits,
    read_uint_seam 8 c.len _ f.len_fits,
  )

  decode-encode_wal_chunks :
      (cs : List ChunkEntry) (seq_no : ℕ) (rest : Bytes)
      → All FitsLog cs
      → decode_wal_chunks ns_id blob_id capacity (length cs) seq_no (encode_wal_chunks cs ++ rest)
        ≡ some (logged_from ns_id blob_id capacity seq_no cs, rest)
  unfolding decode_wal_chunks encode_wal_chunks
  decode-encode_wal_chunks [] seq_no rest f = refl
  decode-encode_wal_chunks (c ∷ cs) seq_no rest f = simp (
    append_assoc,
    decode-encode_wal_chunk c seq_no _ f.0,
    decode-encode_wal_chunks cs (seq_no + 1) rest f.1,
  )

-- What appendWAL wrote of fields that fit their widths is decoded to the blob and its chunks in
-- their order, whatever follows, with what the log keeps of a chunk.
pub decode-encode_wal_entry :
    (ns_id blob_id rest : Bytes) (capacity : ℕ) (chunks : List ChunkEntry)
    → length blob_id < 256 ^ 2
    → length chunks < 256 ^ 4
    → All FitsLog chunks
    → decode_wal_entry (encode_wal_entry blob_id chunks ++ rest) ns_id capacity
      ≡ some
          (record { blob_id = blob_id; chunks = logged_from ns_id blob_id capacity 0 chunks }, rest)
unfolding decode_wal_entry encode_wal_entry
decode-encode_wal_entry ns_id blob_id rest capacity chunks id_fits count_fits f = simp (
  append_assoc,
  read_uint_seam 4 wal_magic _ (omega arith),
  read_uint_seam 2 (length blob_id) _ id_fits,
  read_bytes_seam (length blob_id) blob_id _ refl,
  read_uint_seam 4 (length chunks) _ count_fits,
  decode-encode_wal_chunks ns_id blob_id capacity chunks 0 rest f,
)
