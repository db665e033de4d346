-- ===== src/Staging/Write/Received.antt =====
-- What the data file and the ranges of a session without blocks keep of the upload.
use mathlib.Core.List.{flatten}
use blobs.Base.{
  ℕ, ◌+◌, ◌-◌, ◌≤◌, ◌<◌, ◌≡◌, ◌⊎◌, inl, inr, refl, ap, ◌∙◌, true, not, ◌&&◌, ◌||◌, ◌==◌, ltb, leb,
  [], ◌∷◌, some, length, arith, Bool-cases, Option-cases,
}
use blobs.Base.Bytes.{Bytes}
use blobs.Staging.Ranges.{RangeSet, add, contains}
use blobs.Staging.Ranges.Merge.{covered, IsRangeSet, add_lem}
use blobs.Staging.Session.{SessionMeta, Staged, maybe_flush_meta}
use blobs.Staging.Write.{
  ChunkStream, write_reads, touch, checksum_ok, receive_range_set, write_chunk_range_set,
}
use blobs.Staging.Write.Stream.{
  byte_at, byte_at-write_at, length-write_at, written, written_if, write_reads_lem,
}

-- The data is the part of the content from the offset on.
abbrev pub IsPart : Bytes → ℕ → Bytes → Type 0
IsPart content off d = (i : ℕ) → i < length d → byte_at i d ≡ byte_at (off + i) content

-- Every byte that the ranges cover is in the file, and is that of the content.
abbrev pub Holds : Bytes → RangeSet → Bytes → Type 0
Holds content rs f =
    (x : ℕ) → covered x rs ≡ true → (x < length f) × (byte_at x f ≡ byte_at x content)

-- The session has no blocks, its ranges are in order, and the file holds the content on them.
abbrev pub IsReceiving : Bytes → Staged → Type 0
IsReceiving content s =
    (s.state.info.block_size ≡ 0)
    × IsRangeSet s.state.info.ranges
    × ((f : Bytes) × (s.data_file ≡ some f) × Holds content s.state.info.ranges f)

pub maybe_flush_meta_same :
    (now : ℕ) (s : Staged)
    → ((maybe_flush_meta now s).data_file ≡ s.data_file)
      × ((maybe_flush_meta now s).state.info ≡ s.state.info)
      × ((maybe_flush_meta now s).state.bitmap ≡ s.state.bitmap)
unfolding maybe_flush_meta
maybe_flush_meta_same now s =
    elim (Bool-cases (s.state.dirty || leb 5000000000 (now - s.state.last_flushed))) [
      | inl h ↦ rw h (refl, refl, refl)
      | inr h ↦ rw h (refl, refl, refl)
    ]

-- A byte of the chunk, or one that was in the file, is in it after the write.
pub written-bytes :
    (content : Bytes) (off : ℕ) (d f : Bytes)
    → IsPart content off d
    → (x : ℕ)
    → ((off ≤ x) × (x < off + length d)) ⊎ ((x < length f) × (byte_at x f ≡ byte_at x content))
    → (x < length (written off d f)) × (byte_at x (written off d f) ≡ byte_at x content)
written-bytes content off [] f part x (inl h) = absurd (omega (arith, h))
written-bytes content off [] f part x (inr h) = h
written-bytes content off (b ∷ d) f part x h =
    elim (Bool-cases (leb off x && ltb x (off + length (b ∷ d)))) [
      | inl inside ↦
          let at : off + (x - off) ≡ x = ground (arith, inside) in
          (
            ground (arith, inside, length-write_at off (b ∷ d) f),
            byte_at-write_at x off (b ∷ d) f
                ∙ ground (
                  arith,
                  inside,
                  part (x - off) (ground (arith, inside)),
                  ap (λ (i : ℕ). byte_at i content) at,
                ),
          )
      | inr outside ↦ elim h [
        | inl here ↦ absurd (ground (arith, outside, here))
        | inr old ↦ (
          ground (arith, old, length-write_at off (b ∷ d) f),
          byte_at-write_at x off (b ∷ d) f ∙ ground (arith, outside, old.1),
        )
      ]
    ]

module _ (sha256 : Bytes → Bytes) where
  -- What a received chunk leaves of the session: either its ranges, or those with the chunk added.
  pub receive_range_set_cases :
      (now off : ℕ) (hash d : Bytes) (s : Staged)
      → let w = receive_range_set sha256 now off hash d s in
        (w.staged.data_file ≡ s.data_file)
        × (w.staged.state.info.block_size ≡ s.state.info.block_size)
        × ((w.staged.state.info.ranges ≡ s.state.info.ranges)
            ⊎ ((0 < length d)
                × (w.staged.state.info.ranges ≡ add s.state.info.ranges off (off + length d))))
  unfolding receive_range_set touch
  receive_range_set_cases now off hash d s =
      let seen = maybe_flush_meta_same now (touch now s) in
      let size = s.state.info.expected_size in
      elim (Bool-cases (length d == 0)) [
        | inl void ↦ rw void (refl, refl, inl refl)
        | inr full ↦ elim (Bool-cases (not (size == 0) && ltb size (off + length d))) [
          | inl over ↦ rw (full, over) (refl, refl, inl refl)
          | inr fits ↦ elim (Bool-cases (contains off (off + length d) s.state.info.ranges)) [
            | inl old ↦
                rw (full, fits, old)
                  (
                    seen.0,
                    ap (λ (i : SessionMeta). i.block_size) seen.1,
                    inl (ap (λ (i : SessionMeta). i.ranges) seen.1),
                  )
            | inr fresh ↦ elim (Bool-cases (checksum_ok sha256 hash d)) [
              | inl good ↦
                  rw (full, fits, fresh, good)
                    (
                      (maybe_flush_meta_same now _).0,
                      ap (λ (i : SessionMeta). i.block_size) (maybe_flush_meta_same now _).1,
                      inr (
                        ground (arith, full),
                        ap (λ (i : SessionMeta). i.ranges) (maybe_flush_meta_same now _).1,
                      ),
                    )
              | inr bad ↦ rw (full, fits, fresh, bad) (refl, refl, inl refl)
            ]
          ]
        ]
      ]

  add-Holds :
      (content : Bytes) (rs : RangeSet) (off : ℕ) (d f : Bytes)
      → 0 < length d
      → IsRangeSet rs
      → IsPart content off d
      → Holds content rs (written off d f)
      → IsRangeSet (add rs off (off + length d))
        × Holds content (add rs off (off + length d)) (written off d f)
  add-Holds content rs off d f full v part h =
      let added = add_lem rs off (off + length d) v in
      (
        added.0,
        λ x c. elim (Bool-cases (leb off x && ltb x (off + length d))) [
          | inl inside ↦
              written-bytes content off d f part x
                (inl (ground (arith, inside), ground (arith, inside)))
          | inr outside ↦ h x (ground (arith, outside, added.1 x, c))
        ],
      )

  -- Whatever part of the content a chunk has, where its reader ends, and whether or not the call is
  -- refused: the session's ranges stay in order, and on every byte that they cover the data file
  -- holds the content. The session has no blocks, and its chunks come in any order and overlap.
  pub write_chunk_range_set-IsReceiving :
      (content : Bytes) (now off : ℕ) (hash : Bytes) (chunk : ChunkStream) (s : Staged)
      → IsPart content off (flatten chunk.reads)
      → IsReceiving content s
      → IsReceiving content (write_chunk_range_set sha256 now off hash chunk s).staged
  unfolding write_chunk_range_set
  write_chunk_range_set-IsReceiving content now off hash chunk s part (bs, v, (f, at, h)) =
      let d : Bytes = flatten chunk.reads in
      let copied : (write_reads off 0 chunk.reads f).0 ≡ written off d f =
        (write_reads_lem off chunk.reads f).0 ∙ written_if off d f in
      let kept : Holds content s.state.info.ranges (written off d f) =
        λ x c. written-bytes content off d f part x (inr (h x c)) in
      elim (Option-cases chunk.failure) [
        | inr (e, failing) ↦
            rw (at, write_chunk_range_set, failing) (bs, v, (written off d f, ap some copied, kept))
        | inl whole ↦
            let s' : Staged = record s { data_file = some (write_reads off 0 chunk.reads f).0 } in
            let cases = receive_range_set_cases now off hash d s' in
            rw (at, write_chunk_range_set, whole)
              (elim cases.2 [
                | inl same ↦
                    rw same (cases.1 ∙ bs, v, (written off d f, cases.0 ∙ ap some copied, kept))
                | inr (full, grown) ↦ rw grown (
                    let a = add-Holds content s.state.info.ranges off d f full v part kept in
                    (cases.1 ∙ bs, a.0, (written off d f, cases.0 ∙ ap some copied, a.1)))
              ])
      ]
