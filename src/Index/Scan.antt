-- ===== src/Index/Scan.antt =====
-- The operations of index.go that walk over the keys with a prefix. The backend's Scan is the
-- argument `scan`: the values under a prefix, in the order of their keys, or its error.
pub mod Backend
pub mod Purged
pub mod Spares
mod Tests
use blobs.Base.{ℕ, ◌+◌, Bool, true, false, List, [], ◌∷◌, ◌++◌, if◌then◌else◌}
use blobs.Base.Bytes.{Bytes, text}
use blobs.Errors.{Result, ok, err, ◌>>=◌}
use blobs.Object.{RefEntry, BlobEntry, Namespace}
use blobs.Step.{Step, attempt}
use blobs.Index.Tx.{Tx}
use blobs.Index.Json.{Json}
use blobs.Index.Keys.{prefix_ref}
use blobs.Index.Records.{collect}
use blobs.Index.Reap.{purge_blob, purge_candidates}

module _ {S V : Type 0} (tx : Tx S V) (json : Json V) where
  -- The loop of PurgeDeadBlobs, with the count of the removed blobs so far.
  unfoldable pub purge_loop : List Bytes → ℕ → S → Step S ℕ
  purge_loop [] n s = (s, ok n)
  purge_loop (id ∷ ids) n s =
      attempt s (purge_blob tx json id s) λ out. purge_loop ids (if out.0 then n + 1 else n) out.1

  module _ (scan : Bytes → S → Result (List V)) where
    unfoldable pub list_namespaces : S → Result (List Namespace)
    list_namespaces s = do vs ← scan (text "ns:") s; collect tx json json.unmarshal_ns vs

    unfoldable pub list_refs : Bytes → Bytes → S → Result (List RefEntry)
    list_refs ns_id key_prefix s = do
      vs ← scan (prefix_ref ns_id ++ key_prefix) s
      collect tx json json.unmarshal_ref vs

    unfoldable pub scan_blobs : S → Result (List BlobEntry)
    scan_blobs s = do vs ← scan (text "blob:") s; collect tx json json.unmarshal_blob vs

    unfoldable pub purge_dead_blobs : S → Step S ℕ
    purge_dead_blobs s =
        attempt s (scan_blobs s) λ blobs. purge_loop (purge_candidates tx json blobs) 0 s
