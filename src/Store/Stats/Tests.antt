-- ===== src/Store/Stats/Tests.antt =====
-- The metrics of a store with one namespace, on the in-memory backend; a ratio is the two numbers.
use blobs.Base.{◌≡◌, refl, List, [], ◌∷◌, none, length, if◌then◌else◌}
use blobs.Base.Bytes.{Bytes}
use blobs.Base.Int.{ℤ, pos, ltb_ℤ}
use blobs.Errors.{Result, ok}
use blobs.Index.Memory.{MemTx, mem_ops, mem_IsTx}
use blobs.Index.Records.{collect}
use blobs.Index.Scan.{list_namespaces}
use blobs.Index.Tests.{Doc, of_ns, doc_json, doc_IsJson, ref_tx, ref_tx-IsIndex, name}
use blobs.Object.{Namespace, StoreStats}
use blobs.Store.Put.Tests.{one_namespace}
use blobs.Store.Stats.{store_stats}
use blobs.Store.Stats.Totals.{AreStats, sum, store_stats_lem}

abbrev team : Namespace
team = record {
  id = name;
  display_name = [];
  created_at = 0;
  quota = none;
  custom = [];
  encryption = none;
}

abbrev scan_one : Bytes → MemTx Doc → Result (List Doc)
scan_one p s = ok (of_ns team ∷ [])

abbrev both : ℤ → ℤ → ℤ × ℤ
both a b = (a, b)

listed : list_namespaces mem_ops doc_json scan_one ref_tx ≡ ok (team ∷ [])
unfolding list_namespaces collect
listed = refl

store_stats_lem_example :
    (out : StoreStats (ℤ × ℤ)) × (store_stats mem_ops doc_json
        (pos 0, pos 0)
        both
        9
        scan_one
        one_namespace
      ≡ ok out)
    × AreStats mem_IsTx doc_IsJson ref_tx (team ∷ []) out.per_namespace
    × (out.namespace_count ≡ length (team ∷ []))
    × (out.total_blob_count ≡ sum (λ x. x.blob_count) out.per_namespace)
    × (out.total_bytes_stored ≡ sum (λ x. x.bytes_stored) out.per_namespace)
    × (out.total_bytes_physical ≡ sum (λ x. x.bytes_physical) out.per_namespace)
    × (out.total_dead_bytes ≡ sum (λ x. x.dead_bytes) out.per_namespace)
    × (out.segment_count ≡ sum (λ x. x.segment_count) out.per_namespace)
    × (out.deduplication_ratio ≡ (
        if ltb_ℤ (pos 0) out.total_bytes_physical
        then (out.total_bytes_stored, out.total_bytes_physical)
        else (pos 0, pos 0)))
store_stats_lem_example =
    store_stats_lem mem_IsTx doc_IsJson (pos 0, pos 0) both 9 scan_one one_namespace (team ∷ [])
      refl ref_tx-IsIndex listed
