-- ===== src/Staging/Transfer/Blocks.antt =====
-- A whole upload in blocks, and what Complete makes of it.
use blobs.Base.{
  ℕ, ◌/◌, ◌<◌, ◌≡◌, inl, inr, refl, sym, ap, ◌∙◌, true, not, ◌&&◌, ◌==◌, List, [], ◌∷◌, length, All,
  replicate, length-replicate, arith, Bool-cases,
}
use blobs.Base.Bytes.{Bytes}
use blobs.Errors.{ok, Result-cases, ok_inj}
use blobs.Staging.Bitmap
use blobs.Staging.Bitmap.{BlockBitmap, is_marked, new_block_bitmap}
use blobs.Staging.Bitmap.Marks.{is_complete-is_marked_iff, is_marked-new_block_bitmap}
use blobs.Staging.Blocks.{block_count_for}
use blobs.Staging.Blocks.Chunks.{block_count_for_lem}
use blobs.Staging.Session.{SessionMeta, SessionState, Staged, begin_staged, load_state, new_bitmap}
use blobs.Staging.Write.Stream.{eq_of_bytes}
use blobs.Staging.Write.Received.{IsPart}
use blobs.Staging.Write.Aligned.Blocks.{IsReceivingBlocks, write_chunk_aligned-IsReceivingBlocks}
use blobs.Staging.Transfer.{CompletedUpload, check_complete, complete_staged, write_staged-aligned}
use blobs.Staging.Transfer.Content.{Call, call_data, upload}

module _ (sha256 : Bytes → Bytes) where
  upload-IsReceivingBlocks :
      (content : Bytes) (meta : SessionMeta) (cs : List Call) (s : Staged)
      → 0 < meta.block_size
      → All (λ c. IsPart content c.off (call_data c)) cs
      → IsReceivingBlocks content meta s
      → IsReceivingBlocks content meta (upload sha256 cs s)
  upload-IsReceivingBlocks content meta [] s some_bs h v = v
  upload-IsReceivingBlocks content meta (c ∷ cs) s some_bs h v =
      upload-IsReceivingBlocks content meta cs _ some_bs h.1 (
        rw (write_staged-aligned sha256 c.at c.off c.hash c.chunk s (ground (arith, some_bs, v.0)))
          (write_chunk_aligned-IsReceivingBlocks sha256 content meta c.at c.off c.hash c.chunk s
            some_bs h.0 v))

  begin_staged-IsReceivingBlocks :
      (content : Bytes) (meta : SessionMeta) → IsReceivingBlocks content meta (begin_staged meta)
  unfolding begin_staged load_state new_bitmap new_block_bitmap
  begin_staged-IsReceivingBlocks content meta = (
    refl,
    refl,
    (
      replicate meta.expected_size 0,
      refl,
      (
        length-replicate _ 0,
        refl,
        λ x below marked. absurd (
            ground (
              arith,
              marked,
              is_marked-new_block_bitmap (x / meta.block_size)
                  (block_count_for meta.expected_size meta.block_size),
            )),
      ),
    ),
  )

  -- What Complete has tested of a session with blocks.
  check_complete-blocks :
      (f : Bytes) (s : SessionState)
      → 0 < s.info.block_size
      → check_complete sha256 f s ≡ ok tt
      → Bitmap.is_complete s.bitmap ≡ true
  unfolding check_complete
  check_complete-blocks f s some_bs h = elim (Bool-cases (Bitmap.is_complete s.bitmap)) [
    | inl full ↦ full
    | inr missing ↦ absurd (ground (arith, missing, h, some_bs))
  ]

  complete_staged-IsReceivingBlocks :
      (content : Bytes) (meta : SessionMeta) (now : ℕ) (s : Staged)
      (done : CompletedUpload × Staged)
      → 0 < meta.block_size
      → 0 < length content
      → meta.expected_size ≡ length content
      → IsReceivingBlocks content meta s
      → complete_staged sha256 now s ≡ ok done
      → done.0.data_file ≡ content
  unfolding complete_staged
  complete_staged-IsReceivingBlocks content meta now s done some_bs some_byte whole
        (bs, size, (f, at, (v, count, holds))) =
      let n = s.state.info.expected_size in
      rw (at, complete_staged)
        (elim (Bool-cases (not (n == 0) && not (length f == n))) [
          | inl wrong ↦ rw wrong (λ e. absurd (cc))
          | inr right ↦ rw right (elim (Result-cases (check_complete sha256 f s.state)) [
            | inr (e, bad) ↦ rw bad (λ e. absurd (cc))
            | inl (u, good) ↦
                let full = check_complete-blocks f s.state (ground (arith, some_bs, bs)) good in
                let same_length : length f ≡ length content =
                  ground (arith, right, size, whole, some_byte) in
                let same : f ≡ content = eq_of_bytes f content same_length λ x lt.
                  (holds x (omega (arith, lt, same_length, whole)) (
                    (is_complete-is_marked_iff s.state.bitmap v).0 full (x / meta.block_size) (
                      omega (
                        arith,
                        count,
                        block_count_for_lem meta.block_size meta.expected_size x some_bs
                            (omega (arith, lt, same_length, whole)),
                      )))).1 in
                rw good (λ e.
                  ap (λ (d : CompletedUpload × Staged). d.0.data_file) (sym (ok_inj e)) ∙ same)
          ])
        ])

  -- An upload in blocks of a content that is not empty, with the content's size: whatever calls of
  -- WriteChunk a new session has seen, in any order, repeated, refused or broken off, so long as
  -- each carried a part of the content, what Complete accepts is the content, also where the last
  -- block is shorter than the others.
  pub complete_staged-upload_blocks :
      (content : Bytes) (meta : SessionMeta) (cs : List Call) (now : ℕ)
      (done : CompletedUpload × Staged)
      → 0 < meta.block_size
      → 0 < length content
      → meta.expected_size ≡ length content
      → All (λ c. IsPart content c.off (call_data c)) cs
      → complete_staged sha256 now (upload sha256 cs (begin_staged meta)) ≡ ok done
      → done.0.data_file ≡ content
  complete_staged-upload_blocks content meta cs now done some_bs some_byte whole parts h =
      complete_staged-IsReceivingBlocks content meta now (upload sha256 cs (begin_staged meta)) done
        some_bs some_byte whole
        (upload-IsReceivingBlocks content meta cs (begin_staged meta) some_bs parts
          (begin_staged-IsReceivingBlocks content meta))
        h
