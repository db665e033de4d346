-- ===== src/Volume/Header.antt =====
-- The 88-byte page header and the segment file header (volume.go), and their codecs.
use blobs.Base.{ℕ, ◌+◌, ◌^◌, ◌<◌, ◌≡◌, ap, ◌∙◌, ◌++◌, arith, ltb, length, length-append, take_all}
use blobs.Base.Bytes.{
  Bytes, put_uint, uint, slice, slice_skip, slice_here, length-put_uint, uint-put_uint,
}
use blobs.Errors.{Result, ok, failed, ◌>>=◌, ◌>>◌, refuse_if}
use blobs.Volume.Flags.{decode_magic_flags}

abbrev pub page_header_size : ℕ
page_header_size = 88

abbrev pub seg_header_size : ℕ
seg_header_size = 128

-- `ChunkID` and `BlobID` are raw SHA-256 digests here.
pub record PageHeader : Type 0 where
  pub data_len : ℕ
  pub chunk_id : Bytes
  pub blob_id : Bytes
  pub chunk_seq : ℕ
  pub total_chunks : ℕ
  pub crc32 : ℕ
  pub magic_flags : ℕ

-- What the Go types of the fields say: widths of integers, and arrays of 32 bytes.
pub record IsHeader (h : PageHeader) : Type 0 where
  pub data_len_lt : h.data_len < 256 ^ 8
  pub chunk_id_len : length h.chunk_id ≡ 32
  pub blob_id_len : length h.blob_id ≡ 32
  pub chunk_seq_lt : h.chunk_seq < 256 ^ 4
  pub total_chunks_lt : h.total_chunks < 256 ^ 4
  pub crc32_lt : h.crc32 < 256 ^ 4
  pub magic_flags_lt : h.magic_flags < 256 ^ 4

-- The bytes that `encodePageHeader` leaves in dst[:88].
unfoldable pub encode_page_header : PageHeader → Bytes
encode_page_header h =
    put_uint 8 h.data_len
    ++ (h.chunk_id
        ++ (h.blob_id
            ++ (put_uint 4 h.chunk_seq
                ++ (put_uint 4 h.total_chunks
                    ++ (put_uint 4 h.crc32 ++ put_uint 4 h.magic_flags)))))

unfoldable pub decode_page_header : Bytes → Result PageHeader
decode_page_header b = do
  refuse_if (ltb (length b) page_header_size) (failed "volume: page header too short")
  let mf = uint (slice 84 4 b)
  _ ← decode_magic_flags mf
  ok (record {
    data_len = uint (slice 0 8 b);
    chunk_id = slice 8 32 b;
    blob_id = slice 40 32 b;
    chunk_seq = uint (slice 72 4 b);
    total_chunks = uint (slice 76 4 b);
    crc32 = uint (slice 80 4 b);
    magic_flags = mf;
  })

module _ (h : PageHeader) (v : IsHeader h) where
  pub length-encode_page_header : length (encode_page_header h) ≡ 88
  unfolding encode_page_header
  length-encode_page_header = omega (
    arith,
    v.chunk_id_len,
    v.blob_id_len,
    length-append {0},
    length-put_uint 8 h.data_len,
    length-put_uint 4,
  )

  -- A read behind the two digests.
  behind_ids :
      (off : ℕ) (ys : Bytes)
      → slice (72 + off) 4 (put_uint 8 h.data_len ++ (h.chunk_id ++ (h.blob_id ++ ys)))
        ≡ slice off 4 ys
  behind_ids off ys =
      ap (λ (n : ℕ). slice n 4 (put_uint 8 h.data_len ++ (h.chunk_id ++ (h.blob_id ++ ys))))
        (omega arith)
      ∙ slice_skip 8 (32 + (32 + off)) 4 _ _ (length-put_uint 8 _)
      ∙ slice_skip 32 (32 + off) 4 _ _ v.chunk_id_len
      ∙ slice_skip 32 off 4 _ _ v.blob_id_len

  word_here : (w : ℕ) (ys : Bytes) → slice 0 4 (put_uint 4 w ++ ys) ≡ put_uint 4 w
  word_here w ys = slice_here 4 _ ys (length-put_uint 4 w)

  word_skip : (off w : ℕ) (ys : Bytes) → slice (4 + off) 4 (put_uint 4 w ++ ys) ≡ slice off 4 ys
  word_skip off w ys = slice_skip 4 off 4 _ ys (length-put_uint 4 w)

  slice_data_len : slice 0 8 (encode_page_header h) ≡ put_uint 8 h.data_len
  unfolding encode_page_header
  slice_data_len = slice_here 8 _ _ (length-put_uint 8 _)

  slice_chunk_id : slice 8 32 (encode_page_header h) ≡ h.chunk_id
  unfolding encode_page_header
  slice_chunk_id = slice_skip 8 0 32 _ _ (length-put_uint 8 _) ∙ slice_here 32 _ _ v.chunk_id_len

  slice_blob_id : slice 40 32 (encode_page_header h) ≡ h.blob_id
  unfolding encode_page_header
  slice_blob_id =
      slice_skip 8 32 32 _ _ (length-put_uint 8 _)
      ∙ slice_skip 32 0 32 _ _ v.chunk_id_len
      ∙ slice_here 32 _ _ v.blob_id_len

  slice_chunk_seq : slice 72 4 (encode_page_header h) ≡ put_uint 4 h.chunk_seq
  unfolding encode_page_header
  slice_chunk_seq = behind_ids 0 _ ∙ word_here _ _

  slice_total_chunks : slice 76 4 (encode_page_header h) ≡ put_uint 4 h.total_chunks
  unfolding encode_page_header
  slice_total_chunks = behind_ids 4 _ ∙ word_skip 0 _ _ ∙ word_here _ _

  slice_crc32 : slice 80 4 (encode_page_header h) ≡ put_uint 4 h.crc32
  unfolding encode_page_header
  slice_crc32 = behind_ids 8 _ ∙ word_skip 4 _ _ ∙ word_skip 0 _ _ ∙ word_here _ _

  pub slice_magic_flags : slice 84 4 (encode_page_header h) ≡ put_uint 4 h.magic_flags
  unfolding encode_page_header
  slice_magic_flags =
      behind_ids 12 _
      ∙ word_skip 8 _ _
      ∙ word_skip 4 _ _
      ∙ word_skip 0 _ _
      ∙ take_all 4 _ (omega (arith, length-put_uint 4 h.magic_flags))

  -- Decoding what was encoded gives the header back, if its fields fit their widths and its magic
  -- word is a page's.
  pub decode-encode_page_header :
      (flags : ℕ)
      → decode_magic_flags h.magic_flags ≡ ok flags
      → decode_page_header (encode_page_header h) ≡ ok h
  unfolding decode_page_header
  decode-encode_page_header flags m = rw (
    length-encode_page_header,
    slice_magic_flags,
    uint-put_uint 4 h.magic_flags v.magic_flags_lt,
    m,
    slice_data_len,
    uint-put_uint 8 h.data_len v.data_len_lt,
    slice_chunk_id,
    slice_blob_id,
    slice_chunk_seq,
    uint-put_uint 4 h.chunk_seq v.chunk_seq_lt,
    slice_total_chunks,
    uint-put_uint 4 h.total_chunks v.total_chunks_lt,
    slice_crc32,
    uint-put_uint 4 h.crc32 v.crc32_lt,
  )
