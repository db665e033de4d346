-- ===== src/Store/Compact.antt =====
-- Compact (store.go), by its two phases. The backend's Scan, the test of a segment's dead ratio
-- against the threshold, which is one of float64, and the clock are arguments. The cache of phase 1
-- gives what the index gives, since no other operation comes between.
pub mod Reaping
pub mod Moves
pub mod Whole
mod Tests
use blobs.Base.{
  ℕ, ◌+◌, Bool, true, false, not, ◌&&◌, ◌||◌, ◌==◌, ltb, if◌then◌else◌, List, [], ◌∷◌, Option, none,
  some, length,
}
use blobs.Base.Bytes.{Bytes}
use blobs.Base.Int.{ℤ, pos, ◌+ℤ◌, ◌-ℤ◌, ltb_ℤ}
use blobs.Errors.{Error, Result, ok, err, wrapped}
use blobs.Object.{ChunkEntry}
use blobs.Step.{Step, ◌>>=◌, update}
use blobs.Index.Tx.{Tx}
use blobs.Index.Json.{Json}
use blobs.Index.Records.{get_chunk, put_chunk}
use blobs.Index.Reap.{reap_physical_page_if_dead, reconcile_dead_stats}
use blobs.Index.Scan.{purge_dead_blobs}
use blobs.Store.Handle.{Store}
use blobs.Store.Parts.{Parts, on_engine, on_index, on_namespace}
use blobs.Volume.Engine.{Engine}
use blobs.Volume.Flags.{is_deleted}
use blobs.Volume.Header.{PageHeader}
use blobs.Volume.Scan.{flags_of, scan_segments, is_active, rewrite_segment, delete_segment_file}
use blobs.Volume.Stats.{SegmentStat, dead_ratio, segment_stats}
use blobs.Volume.Write.{mark_deleted}

pub record CompactResult : Type 0 where
  pub blobs_removed : ℕ
  pub chunks_removed : ℤ
  pub bytes_freed : ℤ
  pub segments_compacted : ℕ

abbrev pub no_result : CompactResult
no_result = record {
  blobs_removed = 0;
  chunks_removed = pos 0;
  bytes_freed = pos 0;
  segments_compacted = 0;
}

unfoldable pub sum_len : List ChunkEntry → ℕ
sum_len [] = 0
sum_len (c ∷ cs) = c.len + sum_len cs

-- An entry at its new place, with what only the index knows of the chunk.
unfoldable pub carried : ChunkEntry → ChunkEntry → ChunkEntry
carried entry existing = record entry {
  ref_count = existing.ref_count;
  nonce = existing.nonce;
  tag = existing.tag;
}

module _ {S V : Type 0} (tx : Tx S V) (json : Json V) where
  -- lookupChunk and the test of its count; any error counts as no record.
  unfoldable pub is_live : S → ChunkEntry → Bool
  is_live s c = elim (get_chunk tx json c.chunk_id s) [
    | err _ ↦ false
    | ok r ↦ ltb_ℤ (pos 0) r.ref_count
  ]

  -- The callback of phase 1's scan.
  unfoldable pub dead_pages : S → List (ChunkEntry × PageHeader) → List ChunkEntry
  dead_pages s [] = []
  dead_pages s ((c, h) ∷ r) =
      let rest = dead_pages s r in if is_deleted (flags_of h) || is_live s c then rest else c ∷ rest

  -- What follows the verdict on a page, with the bytes and the chunks freed.
  unfoldable pub reap_page : ChunkEntry → Bool → ℤ × ℤ → Parts S → Step (Parts S) (ℤ × ℤ)
  reap_page c false (bytes, chunks) p = (p, ok (bytes -ℤ pos c.len, chunks -ℤ pos 1))
  reap_page c true freed p =
      on_engine p (wrapped "store: mark deleted") (mark_deleted p.engine c) >>= λ p' _.
      (p', ok freed)

  -- The loop over the dead-looking pages.
  unfoldable pub reap_pages : List ChunkEntry → ℤ × ℤ → Parts S → Step (Parts S) (ℤ × ℤ)
  reap_pages [] freed p = (p, ok freed)
  reap_pages (c ∷ cs) freed p =
      update p (wrapped "store: confirm dead chunk")
        (reap_physical_page_if_dead tx json c.chunk_id c.segment_id c.page_offset p.index)
        λ v. reap_page c v.safe_to_reap freed (record p { index = v.state }) >>= λ p' freed'.
          reap_pages cs freed' p'

  module _ (scan : Bytes → S → Result (List V)) where
    unfoldable pub compact_pages : Bytes → Parts S → Step (Parts S) CompactResult
    compact_pages ns_id p =
        let dead = dead_pages p.index (scan_segments p.engine) in
        reap_pages dead (pos (sum_len dead), pos (length dead)) p >>= λ p₁ freed.
        on_index p₁ (wrapped "store: purge dead blobs") (purge_dead_blobs tx json scan p₁.index)
        >>= λ p₂ removed.
            update p₂ (wrapped "store: compact: reconcile stats")
              (reconcile_dead_stats tx json ns_id freed.0 freed.1 p₂.index)
              λ s.
                let result : CompactResult = record {
                  blobs_removed = removed;
                  chunks_removed = freed.1;
                  bytes_freed = freed.0;
                  segments_compacted = 0;
                } in
                (record p₂ { index = s }, ok result)

    unfoldable pub compact_phase1 : Bytes → Store S Engine → Step (Store S Engine) CompactResult
    compact_phase1 ns_id st = on_namespace ns_id st (compact_pages ns_id)

  -- The index update for the chunks that a rewrite has copied.
  unfoldable pub relocate : List ChunkEntry → S → Step S (Unit {0})
  relocate [] s = (s, ok tt)
  relocate (c ∷ cs) s =
      update s (wrapped "relocate chunk: look up existing record") (get_chunk tx json c.chunk_id s)
        λ existing.
          update s (wrapped "relocate chunk") (put_chunk tx json (carried c existing) s)
            λ s'. relocate cs s'

  module _ (now : ℕ) (below : ℕ × ℕ → Bool) where
    -- The rewrite of one segment: copy, index update, and only then the removal of its files.
    unfoldable pub compact_segment : ℕ → Parts S → Step (Parts S) ℕ
    compact_segment seg p =
        on_engine p (wrapped "rewrite segment") (rewrite_segment now p.engine seg) >>= λ p₁ done.
        on_index p₁ (λ x. x) (relocate done.1.relocated p₁.index) >>= λ p₂ _.
        on_engine p₂ (wrapped "delete old segment") (delete_segment_file p₂.engine seg) >>= λ p₃ _.
        (p₃, ok done.1.bytes_freed)

    -- The loop of phase 2; what it has added up is dropped by its caller where it fails. No rewrite
    -- changes which segment is active.
    unfoldable pub compact_segments : List SegmentStat → ℕ → ℕ → Parts S → Step (Parts S) (ℕ × ℕ)
    compact_segments [] bytes segments p = (p, ok (bytes, segments))
    compact_segments (s ∷ ss) bytes segments p =
        elim (is_active p.engine s.segment_id || below (dead_ratio s)) [
          | true ↦ compact_segments ss bytes segments p
          | false ↦ compact_segment s.segment_id p >>= λ p₁ freed.
              compact_segments ss (bytes + freed) (segments + 1) p₁
        ]

    unfoldable pub compact_phase2 : Bytes → Store S Engine → Step (Store S Engine) (ℕ × ℕ)
    compact_phase2 ns_id st =
        on_namespace ns_id st λ p. compact_segments (segment_stats p.engine) 0 0 p

    -- What CompactWithOptions makes of phase 2.
    unfoldable pub add_phase2 :
        CompactResult
        → Step (Store S Engine) (ℕ × ℕ)
        → Store S Engine × CompactResult × Result (Unit {0})
    add_phase2 r (st, err x) = (st, r, err (wrapped "store: compact phase 2 (segment rewrite)" x))
    add_phase2 r (st, ok (bytes, segments)) = (
      st,
      record r { bytes_freed = r.bytes_freed +ℤ pos bytes; segments_compacted = segments },
      ok tt,
    )

    unfoldable pub go_on :
        Bytes
        → Step (Store S Engine) CompactResult
        → Store S Engine × CompactResult × Result (Unit {0})
    go_on ns_id (st, err x) = (st, no_result, err x)
    go_on ns_id (st, ok r) = add_phase2 r (compact_phase2 ns_id st)

    -- The result stands beside the error: that of phase 1 where phase 2 fails.
    unfoldable pub compact_with_options :
        (Bytes → S → Result (List V))
        → Bytes
        → Store S Engine
        → Store S Engine × CompactResult × Result (Unit {0})
    compact_with_options scan ns_id st = go_on ns_id (compact_phase1 scan ns_id st)
