-- ===== src/Volume/Write/Patch.antt =====
-- Patching a page header in place (patchPage, MarkDeleted of volume.go).
use blobs.Base.{
  ℕ, ◌+◌, ◌-◌, ◌≤◌, ◌≡◌, refl, sym, ap, ◌∙◌, ltb, false, ◌++◌, length, replicate, arith,
  length-append, append-nil, [],
}
use blobs.Base.Bytes.{
  Bytes, slice, put_uint, length-put_uint, uint-put_uint, write_at, write_at_skip, write_at_here,
  write_at_left, slice_skip, slice_left,
}
use blobs.Errors.{ok}
use blobs.Volume.Flags.{decode_magic_flags, encode_magic_flags}
use blobs.Volume.Header.{
  PageHeader, IsHeader, page_header_size, encode_page_header, length-encode_page_header,
  slice_magic_flags,
}
use blobs.Volume.Segment.Layout.{raw_page}
use blobs.Volume.Write.{update_flags}

module _ (h : PageHeader) (v : IsHeader h) where
  -- A write behind the two digests.
  behind_ids :
      (off : ℕ) (w ys : Bytes)
      → write_at (72 + off) w (put_uint 8 h.data_len ++ (h.chunk_id ++ (h.blob_id ++ ys)))
        ≡ put_uint 8 h.data_len ++ (h.chunk_id ++ (h.blob_id ++ write_at off w ys))
  behind_ids off w ys =
      ap (λ (n : ℕ). write_at n w (put_uint 8 h.data_len ++ (h.chunk_id ++ (h.blob_id ++ ys))))
        (omega arith)
      ∙ write_at_skip 8 (32 + (32 + off)) w _ _ (length-put_uint 8 _)
      ∙ ap (◌++◌ (put_uint 8 h.data_len)) (
          write_at_skip 32 (32 + off) w _ _ v.chunk_id_len
          ∙ ap (◌++◌ h.chunk_id) (write_at_skip 32 off w _ _ v.blob_id_len))

  word_skip :
      (off n : ℕ) (w ys : Bytes)
      → write_at (4 + off) w (put_uint 4 n ++ ys) ≡ put_uint 4 n ++ write_at off w ys
  word_skip off n w ys = write_at_skip 4 off w (put_uint 4 n) ys (length-put_uint 4 n)

  word_here :
      (n m : ℕ) (ys : Bytes) → write_at 0 (put_uint 4 m) (put_uint 4 n ++ ys) ≡ put_uint 4 m ++ ys
  word_here n m ys =
      write_at_here (put_uint 4 m) (put_uint 4 n) ys
        (length-put_uint 4 m ∙ sym (length-put_uint 4 n))

  word_last : (n m : ℕ) → write_at 0 (put_uint 4 m) (put_uint 4 n) ≡ put_uint 4 m
  word_last n m =
      ap (write_at 0 (put_uint 4 m)) (sym (append-nil _)) ∙ word_here n m [] ∙ append-nil _

  pub patch_total_chunks :
      (n : ℕ)
      → write_at 76 (put_uint 4 n) (encode_page_header h)
        ≡ encode_page_header (record h { total_chunks = n })
  unfolding encode_page_header
  patch_total_chunks n =
      behind_ids 4 (put_uint 4 n) _
      ∙ rw (
        word_skip 0 h.chunk_seq (put_uint 4 n)
            (put_uint 4 h.total_chunks ++ (put_uint 4 h.crc32 ++ put_uint 4 h.magic_flags)),
        word_here h.total_chunks n (put_uint 4 h.crc32 ++ put_uint 4 h.magic_flags),
      )

  pub patch_magic_flags :
      (n : ℕ)
      → write_at 84 (put_uint 4 n) (encode_page_header h)
        ≡ encode_page_header (record h { magic_flags = n })
  unfolding encode_page_header
  patch_magic_flags n =
      behind_ids 12 (put_uint 4 n) _
      ∙ rw (
        word_skip 8 h.chunk_seq (put_uint 4 n)
            (put_uint 4 h.total_chunks ++ (put_uint 4 h.crc32 ++ put_uint 4 h.magic_flags)),
        word_skip 4 h.total_chunks (put_uint 4 n) (put_uint 4 h.crc32 ++ put_uint 4 h.magic_flags),
        word_skip 0 h.crc32 (put_uint 4 n) (put_uint 4 h.magic_flags),
        word_last h.magic_flags n,
      )

  pub patch_blob_id :
      (id : Bytes)
      → length id ≡ 32
      → write_at 40 id (encode_page_header h) ≡ encode_page_header (record h { blob_id = id })
  unfolding encode_page_header
  patch_blob_id id e =
      write_at_skip 8 32 id _ _ (length-put_uint 8 _)
      ∙ ap (◌++◌ (put_uint 8 h.data_len)) (
          write_at_skip 32 0 id _ _ v.chunk_id_len
          ∙ ap (◌++◌ h.chunk_id) (write_at_here id h.blob_id _ (e ∙ sym v.blob_id_len)))

module _ (page_size : ℕ) (pre post : Bytes) (h : PageHeader) (s : Bytes) (v : IsHeader h) where
  -- A write inside the header of a page in the middle of a file.
  write_header :
      (off : ℕ) (w : Bytes) (h' : PageHeader)
      → off + length w ≤ 88
      → write_at off w (encode_page_header h) ≡ encode_page_header h'
      → write_at (length pre + off) w (pre ++ (raw_page page_size (h, s) ++ post))
        ≡ pre ++ (raw_page page_size (h', s) ++ post)
  unfolding raw_page
  write_header off w h' fits e =
      let pad = replicate (page_size - (page_header_size + length s)) 0 in
      let len = length-encode_page_header h v in
      write_at_skip (length pre) off w pre _ refl
      ∙ ap (◌++◌ pre) (
          write_at_left off w (encode_page_header h ++ (s ++ pad)) post
            (omega (arith, length-append (encode_page_header h) (s ++ pad)))
          ∙ ap (λ (t : Bytes). t ++ post)
              (write_at_left off w (encode_page_header h) (s ++ pad) (omega arith)
                ∙ ap (λ (t : Bytes). t ++ (s ++ pad)) e))

  header_word :
      (rest : Bytes)
      → slice 84 4 ((encode_page_header h ++ rest) ++ post) ≡ slice 84 4 (encode_page_header h)
  header_word rest =
      let len = length-encode_page_header h v in
      slice_left 84 4 (encode_page_header h ++ rest) post
        (omega (arith, length-append (encode_page_header h) rest))
      ∙ slice_left 84 4 (encode_page_header h) rest (omega arith)

  -- The flags of the page are read, changed and written back, and nothing else changes.
  pub update_flags_lem :
      (change : ℕ → ℕ) (flags : ℕ)
      → decode_magic_flags h.magic_flags ≡ ok flags
      → update_flags change (length pre) (pre ++ (raw_page page_size (h, s) ++ post))
        ≡ ok (
            pre
            ++ (raw_page page_size (record h { magic_flags = encode_magic_flags (change flags) }, s)
                ++ post))
  unfolding update_flags raw_page
  update_flags_lem change flags m =
      let word : slice (length pre + 84) 4 (pre ++ (raw_page page_size (h, s) ++ post))
          ≡ put_uint 4 h.magic_flags =
        slice_skip (length pre) 84 4 pre _ refl
        ∙ header_word (s ++ replicate (page_size - (page_header_size + length s)) 0)
        ∙ slice_magic_flags h v in
      let long : ltb (length (put_uint 4 h.magic_flags)) 4 ≡ false =
        rw (length-put_uint 4 h.magic_flags) in
      rw (word, long, uint-put_uint 4 h.magic_flags v.magic_flags_lt, m)
        (ap ok (
          write_header 84 _ _ (omega (arith, length-put_uint 4 (encode_magic_flags (change flags))))
            (patch_magic_flags h v (encode_magic_flags (change flags)))))
