-- ===== src/Staging/Write/Aligned/Blocks.antt =====
-- What the data file and the bitmap of a session with blocks keep of the upload.
use mathlib.Core.List.{flatten}
use blobs.Base.{
  ℕ, ◌+◌, ◌/◌, ◌%◌, ◌<◌, ◌≡◌, inl, inr, refl, ◌∙◌, true, ◌&&◌, ◌==◌, ltb, leb, some, length, arith,
  Bool-cases, Option-cases,
}
use blobs.Base.Bytes.{Bytes, write_at}
use blobs.Staging.Bitmap.{BlockBitmap, is_marked}
use blobs.Staging.Bitmap.Marks.{IsBitmap}
use blobs.Staging.Blocks.{block_count_for, valid_block_chunk, mark_blocks}
use blobs.Staging.Blocks.Chunks.{is_marked-mark_blocks, valid_block_chunk-bytes}
use blobs.Staging.Session.{SessionMeta, Staged, maybe_flush_meta}
use blobs.Staging.Write.{ChunkStream, write_reads, touch, checksum_ok}
use blobs.Staging.Write.Stream.{byte_at, written, written_if, write_reads_lem}
use blobs.Staging.Write.Received.{IsPart, written-bytes, maybe_flush_meta_same}
use blobs.Staging.Write.Aligned.{
  reply, mark_chunk, chunk_blocks, receive_stream, write_chunk_aligned_stream, verify_chunk,
  write_verified, write_chunk_aligned,
}

-- Every byte of the upload in a marked block is in the file, and is that of the content.
abbrev pub BlocksHold : Bytes → ℕ → ℕ → BlockBitmap → Bytes → Type 0
BlocksHold content bs size bb f =
    (x : ℕ)
    → x < size
    → is_marked (x / bs) bb ≡ true
    → (x < length f) × (byte_at x f ≡ byte_at x content)

-- The bitmap has the blocks of the upload, and the file holds the content on the marked ones.
abbrev pub IsFilling : Bytes → SessionMeta → BlockBitmap → Bytes → Type 0
IsFilling content meta bb f =
    IsBitmap bb
    × (bb.block_count ≡ block_count_for meta.expected_size meta.block_size)
    × BlocksHold content meta.block_size meta.expected_size bb f

-- The session's block size and expected size are those of `meta`, and it is being filled.
abbrev pub IsReceivingBlocks : Bytes → SessionMeta → Staged → Type 0
IsReceivingBlocks content meta s =
    (s.state.info.block_size ≡ meta.block_size)
    × (s.state.info.expected_size ≡ meta.expected_size)
    × ((f : Bytes) × (s.data_file ≡ some f) × IsFilling content meta s.state.bitmap f)

written-IsFilling :
    (content : Bytes) (meta : SessionMeta) (bb : BlockBitmap) (off : ℕ) (d f : Bytes)
    → IsPart content off d
    → IsFilling content meta bb f
    → IsFilling content meta bb (written off d f)
written-IsFilling content meta bb off d f part (v, count, h) =
    (v, count, λ x below marked. written-bytes content off d f part x (inr (h x below marked)))

-- A valid chunk that is written and whose blocks are marked.
mark_blocks-IsFilling :
    (content : Bytes) (meta : SessionMeta) (bb : BlockBitmap) (off : ℕ) (d f : Bytes)
    → 0 < meta.block_size
    → 0 < length d
    → off % meta.block_size ≡ 0
    → valid_block_chunk meta.block_size meta.expected_size off (length d) ≡ true
    → IsPart content off d
    → IsFilling content meta bb f
    → IsFilling content meta
        (mark_blocks (off / meta.block_size) (chunk_blocks meta.block_size off (length d)) bb)
        (written off d f)
unfolding chunk_blocks
mark_blocks-IsFilling content meta bb off d f some_bs some_byte aligned valid part (v, count, h) =
    let bs = meta.block_size in
    let n = chunk_blocks bs off (length d) in
    (
      (is_marked-mark_blocks 0 (off / bs) n bb v).0,
      (is_marked-mark_blocks 0 (off / bs) n bb v).1 ∙ count,
      λ x below marked. elim (Bool-cases (leb (off / bs) (x / bs) && ltb (x / bs) (off / bs + n))) [
        | inl inside ↦ written-bytes content off d f part x (
            inl (
              valid_block_chunk-bytes bs meta.expected_size off (length d) x some_bs some_byte
                aligned valid below (ground (arith, inside)) (ground (arith, inside))))
        | inr outside ↦ written-bytes content off d f part x (
            inr (
              h x below (
                ground
                  (arith, outside, marked, (is_marked-mark_blocks (x / bs) (off / bs) n bb v).2))))
      ],
    )

flush-IsReceivingBlocks :
    (content : Bytes) (meta : SessionMeta) (now : ℕ) (s : Staged)
    → IsReceivingBlocks content meta s
    → IsReceivingBlocks content meta (maybe_flush_meta now (touch now s))
unfolding touch
flush-IsReceivingBlocks content meta now s (bs, size, (f, at, filling)) =
    let same = maybe_flush_meta_same now (touch now s) in
    rw (same.0, same.1, same.2) (bs, size, (f, at, filling))

-- A valid chunk that is not empty has been written, and its blocks are marked.
mark_chunk-IsReceivingBlocks :
    (content : Bytes) (meta : SessionMeta) (off : ℕ) (d f g : Bytes) (s : Staged)
    → 0 < meta.block_size
    → 0 < length d
    → off % meta.block_size ≡ 0
    → valid_block_chunk meta.block_size meta.expected_size off (length d) ≡ true
    → IsPart content off d
    → s.state.info.block_size ≡ meta.block_size
    → s.state.info.expected_size ≡ meta.expected_size
    → s.data_file ≡ some g
    → g ≡ written off d f
    → IsFilling content meta s.state.bitmap f
    → IsReceivingBlocks content meta (mark_chunk off (length d) s)
unfolding mark_chunk
mark_chunk-IsReceivingBlocks content meta off d f g s some_bs some_byte aligned valid part bs size
      at same filling =
    (
      bs,
      size,
      (
        g,
        at,
        rw (same, bs)
            (mark_blocks-IsFilling content meta s.state.bitmap off d f some_bs some_byte aligned
              valid part filling),
      ),
    )

receive_stream-IsReceivingBlocks :
    (content : Bytes) (meta : SessionMeta) (now off : ℕ) (d f g : Bytes) (s : Staged)
    → 0 < meta.block_size
    → off % meta.block_size ≡ 0
    → IsPart content off d
    → s.state.info.block_size ≡ meta.block_size
    → s.state.info.expected_size ≡ meta.expected_size
    → s.data_file ≡ some g
    → g ≡ written off d f
    → IsFilling content meta s.state.bitmap f
    → IsReceivingBlocks content meta (receive_stream now off (length d) s).staged
unfolding receive_stream reply
receive_stream-IsReceivingBlocks content meta now off d f g s some_bs aligned part bs size at same
      filling =
    let kept : IsReceivingBlocks content meta s = (
      bs,
      size,
      (g, at, rw same (written-IsFilling content meta s.state.bitmap off d f part filling)),
    ) in
    elim (Bool-cases (length d == 0)) [
      | inl void ↦ rw void kept
      | inr full ↦
          elim (Bool-cases
            (valid_block_chunk s.state.info.block_size s.state.info.expected_size off (length d))) [
              | inr bad ↦ rw (full, bad) kept
              | inl good ↦
                  rw (full, good)
                    (flush-IsReceivingBlocks content meta now (mark_chunk off (length d) s) (
                      mark_chunk-IsReceivingBlocks content meta off d f g s some_bs
                        (ground (arith, full)) aligned (ground (arith, good, bs, size)) part bs size
                        at same filling))
            ]
    ]

verify_chunk_same :
    (sha256 : Bytes → Bytes) (off : ℕ) (d : Bytes) (s : Staged)
    → let s' = (verify_chunk sha256 off d s).0 in
      (s'.data_file ≡ s.data_file)
      × (s'.state.info ≡ s.state.info)
      × (s'.state.bitmap ≡ s.state.bitmap)
unfolding verify_chunk
verify_chunk_same sha256 off d s = elim (Bool-cases (length s.state.info.piece_hashes == 0)) [
  | inl h ↦ rw h (refl, refl, refl)
  | inr h ↦ elim (Option-cases s.state.verified) [
    | inl e ↦ rw (h, e, verify_chunk) (refl, refl, refl)
    | inr (v, e) ↦ rw (h, e, verify_chunk) (refl, refl, refl)
  ]
]

module _ (sha256 : Bytes → Bytes) where
  write_verified-IsReceivingBlocks :
      (content : Bytes) (meta : SessionMeta) (now off : ℕ) (hash d f : Bytes) (s : Staged)
      → 0 < meta.block_size
      → off % meta.block_size ≡ 0
      → IsPart content off d
      → s.state.info.block_size ≡ meta.block_size
      → s.state.info.expected_size ≡ meta.expected_size
      → s.data_file ≡ some f
      → IsFilling content meta s.state.bitmap f
      → IsReceivingBlocks content meta (write_verified sha256 now off hash d f s).staged
  unfolding write_verified reply
  write_verified-IsReceivingBlocks content meta now off hash d f s some_bs aligned part bs size at
        filling =
      let kept : IsReceivingBlocks content meta s = (bs, size, (f, at, filling)) in
      let stored : Staged = record s { data_file = some (write_at off d f) } in
      let checked = verify_chunk sha256 off d (mark_chunk off (length d) stored) in
      elim (Bool-cases (length d == 0)) [
        | inl void ↦ rw void kept
        | inr full ↦
            elim (Bool-cases (
              valid_block_chunk s.state.info.block_size s.state.info.expected_size off
                (length d))) [
                  | inr bad ↦ rw (full, bad) kept
                  | inl good ↦
                      let marked : IsReceivingBlocks content meta
                          (mark_chunk off (length d) stored) =
                        mark_chunk-IsReceivingBlocks content meta off d f (write_at off d f) stored
                          some_bs (ground (arith, full)) aligned (ground (arith, good, bs, size))
                          part bs size refl (ground (arith, full, written_if off d f)) filling in
                      let same =
                        verify_chunk_same sha256 off d (mark_chunk off (length d) stored) in
                      let done : IsReceivingBlocks content meta checked.0 =
                        rw (same.0, same.1, same.2) marked in
                      elim (Bool-cases (checksum_ok sha256 hash d)) [
                        | inr wrong ↦ rw (full, good, wrong) kept
                        | inl right ↦ elim (Option-cases checked.1) [
                          | inr (e, failing) ↦ rw (full, good, right, failing) done
                          | inl fine ↦
                              rw (full, good, right, fine)
                                (flush-IsReceivingBlocks content meta now checked.0 done)
                        ]
                      ]
                ]
      ]

  -- Whatever part of the content a chunk has, where its reader ends, and whether or not the call is
  -- refused: on every block of the upload that is marked, the data file holds the content, also on
  -- a shorter last block. The session has blocks.
  pub write_chunk_aligned-IsReceivingBlocks :
      (content : Bytes) (meta : SessionMeta) (now off : ℕ) (hash : Bytes) (chunk : ChunkStream)
      (s : Staged)
      → 0 < meta.block_size
      → IsPart content off (flatten chunk.reads)
      → IsReceivingBlocks content meta s
      → IsReceivingBlocks content meta (write_chunk_aligned sha256 now off hash chunk s).staged
  unfolding write_chunk_aligned write_chunk_aligned_stream reply
  write_chunk_aligned-IsReceivingBlocks content meta now off hash chunk s some_bs part v =
      let (bs, size, (f, at, filling)) = v in
      let d : Bytes = flatten chunk.reads in
      let copied = (write_reads_lem off chunk.reads f).0 ∙ written_if off d f in
      let count = (write_reads_lem off chunk.reads f).1 in
      elim (Bool-cases (off % s.state.info.block_size == 0)) [
        | inr odd ↦ rw odd v
        | inl even ↦
            let aligned : off % meta.block_size ≡ 0 = ground (arith, even, bs) in
            elim (Bool-cases ((length hash == 0) && (length s.state.info.piece_hashes == 0))) [
              | inl plain ↦ elim (Option-cases chunk.failure) [
                | inr (e, failing) ↦
                    rw (even, at, write_chunk_aligned, plain, failing)
                      (
                        bs,
                        size,
                        (
                          _,
                          refl,
                          rw copied
                              (written-IsFilling content meta s.state.bitmap off d f part filling),
                        ),
                      )
                | inl whole ↦
                    rw (even, at, write_chunk_aligned, plain, whole, count)
                      (receive_stream-IsReceivingBlocks content meta now off d f
                        (write_reads off 0 chunk.reads f).0
                        (record s { data_file = some (write_reads off 0 chunk.reads f).0 }) some_bs
                        aligned part bs size refl copied filling)
              ]
              | inr checked ↦ elim (Option-cases chunk.failure) [
                | inr (e, failing) ↦ rw (even, at, write_chunk_aligned, checked, failing) v
                | inl whole ↦
                    rw (even, at, write_chunk_aligned, checked, whole)
                      (write_verified-IsReceivingBlocks content meta now off hash d f s some_bs
                        aligned part bs size at filling)
              ]
            ]
      ]
