-- ===== src/Staging/Write/Persisted.antt =====
-- The metadata file of a session without blocks, and what a restart finds in it.
use mathlib.Core.List.{flatten}
use blobs.Base.{
  ℕ, ◌+◌, ◌-◌, ◌≡◌, inl, inr, refl, true, false, not, ◌&&◌, ◌||◌, ◌==◌, ltb, leb, some, length,
  arith, Bool-cases, Option-cases,
}
use blobs.Base.Bytes.{Bytes}
use blobs.Staging.Ranges.{contains}
use blobs.Staging.Session.{SessionMeta, Staged, maybe_flush_meta, begin_staged, load_state}
use blobs.Staging.Write.{ChunkStream, touch, checksum_ok, receive_range_set, write_chunk_range_set}

-- The metadata file has all of the session but the time of its last activity.
abbrev pub IsPersisted : Staged → Type 0
IsPersisted s =
    (s.state.dirty ≡ false)
    × ((meta : SessionMeta) × (s.saved ≡ some meta)
        × (meta ≡ record s.state.info { last_activity = meta.last_activity }))

touch-IsPersisted : (now : ℕ) (s : Staged) → IsPersisted s → IsPersisted (touch now s)
unfolding touch
touch-IsPersisted now s v = v

maybe_flush_meta-IsPersisted :
    (now : ℕ) (s : Staged) → IsPersisted s → IsPersisted (maybe_flush_meta now s)
unfolding maybe_flush_meta
maybe_flush_meta-IsPersisted now s v =
    elim (Bool-cases (s.state.dirty || leb 5000000000 (now - s.state.last_flushed))) [
      | inl h ↦ rw h (refl, (s.state.info, refl, refl))
      | inr h ↦ rw h v
    ]

-- A flush of a session that is dirty.
dirty-IsPersisted :
    (now : ℕ) (s : Staged) → s.state.dirty ≡ true → IsPersisted (maybe_flush_meta now s)
unfolding maybe_flush_meta
dirty-IsPersisted now s h =
    let flushed : (s.state.dirty || leb 5000000000 (now - s.state.last_flushed)) ≡ true =
      ground (arith, h) in
    rw flushed (refl, (s.state.info, refl, refl))

module _ (sha256 : Bytes → Bytes) where
  receive_range_set-IsPersisted :
      (now off : ℕ) (hash d : Bytes) (s : Staged)
      → IsPersisted s
      → IsPersisted (receive_range_set sha256 now off hash d s).staged
  unfolding receive_range_set
  receive_range_set-IsPersisted now off hash d s v =
      let size = s.state.info.expected_size in
      elim (Bool-cases (length d == 0)) [
        | inl void ↦ rw void v
        | inr full ↦ elim (Bool-cases (not (size == 0) && ltb size (off + length d))) [
          | inl over ↦ rw (full, over) v
          | inr fits ↦ elim (Bool-cases (contains off (off + length d) s.state.info.ranges)) [
            | inl old ↦
                rw (full, fits, old)
                  (maybe_flush_meta-IsPersisted now (touch now s) (touch-IsPersisted now s v))
            | inr fresh ↦ elim (Bool-cases (checksum_ok sha256 hash d)) [
              | inl good ↦ rw (full, fits, fresh, good) (dirty-IsPersisted now _ refl)
              | inr bad ↦ rw (full, fits, fresh, bad) v
            ]
          ]
        ]
      ]

  -- After every write to a session without blocks, the metadata file has the session's ranges and
  -- settings, so a restart that loads the session from it has lost no chunk that was accepted; only
  -- the time of the last activity may be older.
  pub write_chunk_range_set-IsPersisted :
      (now off : ℕ) (hash : Bytes) (chunk : ChunkStream) (s : Staged)
      → IsPersisted s
      → IsPersisted (write_chunk_range_set sha256 now off hash chunk s).staged
  unfolding write_chunk_range_set
  write_chunk_range_set-IsPersisted now off hash chunk s v = elim (Option-cases s.data_file) [
    | inl gone ↦ rw (gone, write_chunk_range_set) v
    | inr (f, at) ↦ elim (Option-cases chunk.failure) [
      | inr (e, failing) ↦ rw (at, write_chunk_range_set, failing) v
      | inl whole ↦
          rw (at, write_chunk_range_set, whole)
            (receive_range_set-IsPersisted now off hash (flatten chunk.reads) _ v)
    ]
  ]

pub begin_staged-IsPersisted : (meta : SessionMeta) → IsPersisted (begin_staged meta)
unfolding begin_staged load_state
begin_staged-IsPersisted meta = (refl, (meta, refl, refl))
