-- ===== src/Index/Reap.antt =====
-- What compaction asks of the index (index.go): ReapPhysicalPageIfDead, ReconcileDeadStats and
-- PurgeDeadBlobs. Each transaction is a step of its own, so other transactions may come between.
pub mod Safety
use blobs.Base.{
  ℕ, suc, ◌≡◌, ◌≢◌, refl, Bool, true, false, not, ◌&&◌, ◌||◌, ◌==◌, List, [], ◌∷◌, Option, none,
  some, if◌then◌else◌, arith, bytes_eq, map,
}
use blobs.Base.Bytes.{Bytes}
use blobs.Base.Int.{ℤ, pos, negsuc, ltb_ℤ, ◌-ℤ◌}
use blobs.Errors.{Result, ok, err, not_found, is_not_found, ◌>>=◌}
use blobs.Object.{ChunkEntry, BlobEntry, NamespaceStats}
use blobs.Index.Tx.{Tx, IsTx, found}
use blobs.Index.Json.{Json, IsJson}
use blobs.Index.Keys.{Key, blob, chunk, key_bytes}
use blobs.Index.Commit.{find, get_stats_tx, put_stats_tx, clamped, is_zero_ℤ}

pub record Verdict (S : Type 0) : Type 0 where
  pub safe_to_reap : Bool
  pub record_deleted : Bool
  pub state : S

module _ {S V : Type 0} (tx : Tx S V) (json : Json V) where
  unfoldable pub reap_physical_page_if_dead : Bytes → ℕ → ℕ → S → Result (Verdict S)
  reap_physical_page_if_dead id seg_id page_offset s = do
    old ← find tx json json.unmarshal_chunk (chunk id) s
    elim old [
      | none ↦ ok (record { safe_to_reap = true; record_deleted = false; state = s })
      | some c ↦
          if not (c.segment_id == seg_id) || not (c.page_offset == page_offset)
          then ok (record { safe_to_reap = true; record_deleted = false; state = s })
          else (if ltb_ℤ (pos 0) c.ref_count
              then ok (record { safe_to_reap = false; record_deleted = false; state = s })
              else do
                s' ← tx.delete (key_bytes (chunk id)) s
                ok (record { safe_to_reap = true; record_deleted = true; state = s' }))
    ]

  unfoldable pub reconcile_dead_stats : Bytes → ℤ → ℤ → S → Result S
  reconcile_dead_stats ns_id dead_bytes dead_chunks s = do
    st ← get_stats_tx tx json s ns_id
    put_stats_tx tx json s (record st {
      dead_bytes = clamped st.dead_bytes dead_bytes;
      dead_chunks = clamped st.dead_chunks dead_chunks;
    })

  -- The transaction of PurgeDeadBlobs for one candidate.
  unfoldable pub purge_blob : Bytes → S → Result (Bool × S)
  purge_blob id s = do
    old ← find tx json json.unmarshal_blob (blob id) s
    elim old [
      | none ↦ ok (false, s)
      | some b ↦
          if ltb_ℤ (pos 0) b.ref_count
          then ok (false, s)
          else do s' ← tx.delete (key_bytes (blob id)) s; ok (true, s')
    ]

  -- The candidates of a scan: the blobs that had no reference then.
  unfoldable pub purge_candidates : List BlobEntry → List Bytes
  purge_candidates [] = []
  purge_candidates (b ∷ bs) =
      let rest = purge_candidates bs in if is_zero_ℤ b.ref_count then b.blob_id ∷ rest else rest
