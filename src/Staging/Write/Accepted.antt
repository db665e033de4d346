-- ===== src/Staging/Write/Accepted.antt =====
-- Chunks that a session without blocks accepts.
use mathlib.Core.List.{flatten}
use blobs.Base.{
  ℕ, ◌+◌, ◌≤◌, ◌<◌, ◌≡◌, inl, inr, refl, ap, ◌∙◌, true, false, not, ◌&&◌, ◌||◌, ◌==◌, ltb, leb,
  none, some, length, arith, Bool-cases,
}
use blobs.Base.Bytes.{Bytes}
use blobs.Staging.Ranges.{RangeSet, contains}
use blobs.Staging.Ranges.Merge.{covered, IsRangeSet, add_lem}
use blobs.Staging.Ranges.Queries.{contains_iff}
use blobs.Staging.Session.{SessionMeta, Staged}
use blobs.Staging.Write.{
  ChunkStream, write_reads, touch, checksum_ok, receive_range_set, write_chunk_range_set,
}
use blobs.Staging.Write.Stream.{written, written_if, write_reads_lem}
use blobs.Staging.Write.Received.{maybe_flush_meta_same, receive_range_set_cases}

-- What Begin fixed for the session is still so.
abbrev pub HasSettings : SessionMeta → SessionMeta → Type 0
HasSettings meta info =
    (info.expected_size ≡ meta.expected_size)
    × (info.expected_sha256 ≡ meta.expected_sha256)
    × (info.block_size ≡ meta.block_size)

abbrev pub Grown : ℕ → ℕ → RangeSet → RangeSet → Type 0
Grown start stop old new = (x : ℕ) → covered x new ≡ ((leb start x && ltb x stop) || covered x old)

contains-Grown :
    (start stop : ℕ) (rs : RangeSet)
    → start < stop
    → IsRangeSet rs
    → contains start stop rs ≡ true
    → Grown start stop rs rs
contains-Grown start stop rs h v c = λ x. elim (Bool-cases (leb start x && ltb x stop)) [
  | inl inside ↦ ground (
    arith,
    inside,
    (contains_iff start stop rs h v).0 c x (ground (arith, inside)) (ground (arith, inside)),
  )
  | inr outside ↦ rw outside refl
]

module _ (sha256 : Bytes → Bytes) where
  receive_range_set-Grown :
      (now off : ℕ) (hash d : Bytes) (s : Staged)
      → IsRangeSet s.state.info.ranges
      → off + length d ≤ s.state.info.expected_size
      → checksum_ok sha256 hash d ≡ true
      → let w = receive_range_set sha256 now off hash d s in
        (w.error ≡ none)
        × HasSettings s.state.info w.staged.state.info
        × Grown off (off + length d) s.state.info.ranges w.staged.state.info.ranges
  unfolding receive_range_set touch
  receive_range_set-Grown now off hash d s v fits good =
      let size = s.state.info.expected_size in
      let fits' : (not (size == 0) && ltb size (off + length d)) ≡ false = ground arith in
      elim (Bool-cases (length d == 0)) [
        | inl void ↦ rw void (refl, (refl, refl, refl), λ x. ground (arith, void))
        | inr full ↦ elim (Bool-cases (contains off (off + length d) s.state.info.ranges)) [
          | inl old ↦
              rw (full, fits', old, (maybe_flush_meta_same now (touch now s)).1)
                (
                  refl,
                  (refl, refl, refl),
                  contains-Grown off (off + length d) _ (ground (arith, full)) v old,
                )
          | inr fresh ↦
              rw (full, fits', fresh, good, (maybe_flush_meta_same now _).1)
                (refl, (refl, refl, refl), (add_lem s.state.info.ranges off (off + length d) v).1)
        ]
      ]

  -- A chunk whose reader ends, that stays below the expected size and has the checksum that the
  -- caller gives: the call returns no error, the session's settings stay, exactly the chunk's bytes
  -- are covered besides those that were, and the chunk is written at its offset.
  pub write_chunk_range_set-Grown :
      (now off : ℕ) (hash : Bytes) (chunk : ChunkStream) (f : Bytes) (s : Staged)
      → s.data_file ≡ some f
      → IsRangeSet s.state.info.ranges
      → chunk.failure ≡ none
      → off + length (flatten chunk.reads) ≤ s.state.info.expected_size
      → checksum_ok sha256 hash (flatten chunk.reads) ≡ true
      → let w = write_chunk_range_set sha256 now off hash chunk s in
        (w.error ≡ none)
        × HasSettings s.state.info w.staged.state.info
        × Grown off
            (off + length (flatten chunk.reads))
            s.state.info.ranges
            w.staged.state.info.ranges
        × (w.staged.data_file ≡ some (written off (flatten chunk.reads) f))
  unfolding write_chunk_range_set
  write_chunk_range_set-Grown now off hash chunk f s at v whole fits good =
      let d : Bytes = flatten chunk.reads in
      let copied : (write_reads off 0 chunk.reads f).0 ≡ written off d f =
        (write_reads_lem off chunk.reads f).0 ∙ written_if off d f in
      let s' : Staged = record s { data_file = some (write_reads off 0 chunk.reads f).0 } in
      let (e, settings, grown) = receive_range_set-Grown now off hash d s' v fits good in
      rw (at, write_chunk_range_set, whole)
        (e, settings, grown, (receive_range_set_cases sha256 now off hash d s').0 ∙ ap some copied)
