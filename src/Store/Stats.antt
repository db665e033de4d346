-- ===== src/Store/Stats.antt =====
-- Store.Stats (store.go). Floating-point numbers are a parameter: `zero` and the ratio of two
-- integers, float64(a) / float64(b).
pub mod Totals
mod Tests
use blobs.Base.{ℕ, ◌≡◌, List, [], ◌∷◌, ◌++◌, if◌then◌else◌, length}
use blobs.Base.Bytes.{Bytes}
use blobs.Base.Int.{ℤ, pos, ltb_ℤ, ◌+ℤ◌}
use blobs.Errors.{Result, ok, ◌>>=◌}
use blobs.Object.{Namespace, NamespaceStats, StoreStats}
use blobs.Index.Tx.{Tx}
use blobs.Index.Json.{Json}
use blobs.Index.Records.{get_stats}
use blobs.Index.Scan.{list_namespaces}
use blobs.Store.Handle.{Store, begin_op}

module _ {F : Type 0} where
  unfoldable pub no_stats : F → ℕ → ℕ → StoreStats F
  no_stats zero count now = record {
    namespace_count = count;
    total_blob_count = pos 0;
    total_bytes_stored = pos 0;
    total_bytes_physical = pos 0;
    total_dead_bytes = pos 0;
    segment_count = pos 0;
    deduplication_ratio = zero;
    per_namespace = [];
    computed_at = now;
  }

  -- The body of the loop, behind GetStats.
  unfoldable pub add_stats : NamespaceStats → StoreStats F → StoreStats F
  add_stats st out = record out {
    per_namespace = out.per_namespace ++ (st ∷ []);
    total_blob_count = out.total_blob_count +ℤ st.blob_count;
    total_bytes_stored = out.total_bytes_stored +ℤ st.bytes_stored;
    total_bytes_physical = out.total_bytes_physical +ℤ st.bytes_physical;
    total_dead_bytes = out.total_dead_bytes +ℤ st.dead_bytes;
    segment_count = out.segment_count +ℤ st.segment_count;
  }

  unfoldable pub with_ratio : (ℤ → ℤ → F) → StoreStats F → StoreStats F
  with_ratio ratio out =
      if ltb_ℤ (pos 0) out.total_bytes_physical
      then record out {
        deduplication_ratio = ratio out.total_bytes_stored out.total_bytes_physical;
      }
      else out

module _ {S V F : Type 0} (tx : Tx S V) (json : Json V) where
  unfoldable pub add_namespaces : List Namespace → S → StoreStats F → Result (StoreStats F)
  add_namespaces [] s out = ok out
  add_namespaces (n ∷ ns) s out = do
    st ← get_stats tx json n.id s
    add_namespaces ns s (add_stats st out)

  unfoldable pub store_stats :
      {E : Type 0}
      → F
      → (ℤ → ℤ → F)
      → ℕ
      → (Bytes → S → Result (List V))
      → Store S E
      → Result (StoreStats F)
  store_stats zero ratio now scan st = do
    _ ← begin_op st
    namespaces ← list_namespaces tx json scan st.index
    out ← add_namespaces namespaces st.index (no_stats zero (length namespaces) now)
    ok (with_ratio ratio out)
