-- ===== src/Index/Scan/Tests.antt =====
-- A scan of the memory backend, and a purge of a blob without a reference.
use blobs.Base.{ℕ, ◌≡◌, ◌≢◌, refl, inr, if◌then◌else◌, none, some, false, ◌∙◌, arith}
use blobs.Base.Bytes.{Bytes, text}
use blobs.Base.Int.{pos}
use blobs.Errors.{ok}
use blobs.Object.{BlobEntry}
use blobs.Index.Table.{Table, lookup}
use blobs.Index.Keys.{ref, blob, key_bytes}
use blobs.Index.Memory.{MemoryBackend, MemTx, commit, tx_put, mem_ops, mem_IsTx}
use blobs.Index.Memory.Scan.{has_prefix, mem_scan}
use blobs.Index.Memory.Scanned.{Ascending, keys_of, commit-IsMap, mem_scan_lem}
use blobs.Index.Memory.Complete.{scan_values, mem_IsScan}
use blobs.Index.Commit.WellFormed.{IsIndex, stored-IsIndex, stored_other}
use blobs.Index.Scan.{purge_dead_blobs}
use blobs.Index.Scan.Spares.{Spares}
use blobs.Index.Scan.Purged.{IsById, Shrinks, stored_blob-IsById, purge_dead_blobs-Purged}
use blobs.Index.Tests.{
  Doc, of_ref, of_blob, a_ref, empty_view, doc_json, doc_IsJson, a_blob, empty_tx, ref_tx,
  ref_tx-IsIndex,
}

-- A reference and a blob whose count is zero.
abbrev dead_tx : MemTx Doc
dead_tx = tx_put (key_bytes (blob a_blob.blob_id)) (of_blob a_blob) ref_tx

abbrev backend : MemoryBackend Doc
backend = record { entries = commit dead_tx; is_closed = false }

mem_scan_lem_example :
    (found : Table Doc) × (mem_scan (text "blob:") backend ≡ ok found)
    × Ascending (keys_of found)
    × ((q : Bytes)
        → lookup q found ≡ (if has_prefix q (text "blob:") then lookup q backend.entries else none))
unfolding tx_put
mem_scan_lem_example = mem_scan_lem (text "blob:") backend refl (commit-IsMap dead_tx tt)

no_blob : (id : Bytes) → lookup (key_bytes (blob id)) (commit ref_tx) ≡ none
no_blob id =
    stored_other mem_IsTx doc_IsJson (ref a_ref.namespace_id a_ref.key) (blob id) (of_ref a_ref)
      empty_tx (omega arith) tt (λ e. ground arith)
    ∙ empty_view (key_bytes (blob id))

dead_tx-IsById : IsById mem_IsTx doc_IsJson dead_tx
dead_tx-IsById =
    stored_blob-IsById mem_IsTx doc_IsJson a_blob ref_tx
      (λ id b h. absurd (ground (arith, h, no_blob id)))

dead_tx-IsIndex : IsIndex mem_IsTx doc_IsJson dead_tx
dead_tx-IsIndex =
    stored-IsIndex mem_IsTx doc_IsJson (blob a_blob.blob_id) (of_blob a_blob) ref_tx tt
      (inr (a_blob, refl)) ref_tx-IsIndex

purge_dead_blobs-Purged_example :
    (n : ℕ) × (s' : MemTx Doc) × (purge_dead_blobs mem_ops doc_json scan_values dead_tx
      ≡ (s', ok n))
    × Spares mem_IsTx doc_IsJson dead_tx s'
    × Shrinks mem_IsTx doc_IsJson dead_tx s'
    × ((id : Bytes) (b : BlobEntry)
        → lookup (key_bytes (blob id)) (commit s') ≡ some (of_blob b)
        → b.ref_count ≢ pos 0)
purge_dead_blobs-Purged_example =
    purge_dead_blobs-Purged mem_IsTx doc_IsJson scan_values dead_tx mem_IsScan dead_tx-IsIndex
      dead_tx-IsById
