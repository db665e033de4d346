-- ===== src/Index/Records.antt =====
-- The operations of index.go on one record, outside a transaction: a backend's Get, Put and Delete
-- are those of the Tx interface, on the backend's state. GetChunks is its loop over GetChunk; the
-- batched read of a BatchGetter differs in the error for a missing chunk only.
use blobs.Base.{List, [], ◌∷◌, true, false}
use blobs.Base.Bytes.{Bytes}
use blobs.Errors.{Result, ok, err, is_not_found, ◌>>=◌}
use blobs.Object.{RefEntry, BlobEntry, ChunkEntry, Namespace, NamespaceStats}
use blobs.Index.Tx.{Tx}
use blobs.Index.Json.{Json}
use blobs.Index.Keys.{ns, ref, blob, chunk, stats, key_bytes}
use blobs.Index.Commit.{save, empty_stats}

module _ {S V : Type 0} (tx : Tx S V) (json : Json V) where
  unfoldable pub put_ref : RefEntry → S → Result S
  put_ref r s = save tx json json.marshal_ref (ref r.namespace_id r.key) r s

  unfoldable pub get_ref : Bytes → Bytes → S → Result RefEntry
  get_ref ns_id key s = do raw ← tx.get (key_bytes (ref ns_id key)) s; json.unmarshal_ref raw

  unfoldable pub delete_ref : Bytes → Bytes → S → Result S
  delete_ref ns_id key s = tx.delete (key_bytes (ref ns_id key)) s

  unfoldable pub put_blob : BlobEntry → S → Result S
  put_blob b s = save tx json json.marshal_blob (blob b.blob_id) b s

  unfoldable pub get_blob : Bytes → S → Result BlobEntry
  get_blob id s = do raw ← tx.get (key_bytes (blob id)) s; json.unmarshal_blob raw

  unfoldable pub delete_blob : Bytes → S → Result S
  delete_blob id s = tx.delete (key_bytes (blob id)) s

  unfoldable pub put_chunk : ChunkEntry → S → Result S
  put_chunk c s = save tx json json.marshal_chunk (chunk c.chunk_id) c s

  unfoldable pub get_chunk : Bytes → S → Result ChunkEntry
  get_chunk id s = do raw ← tx.get (key_bytes (chunk id)) s; json.unmarshal_chunk raw

  unfoldable pub delete_chunk : Bytes → S → Result S
  delete_chunk id s = tx.delete (key_bytes (chunk id)) s

  unfoldable pub get_chunks : List Bytes → S → Result (List ChunkEntry)
  get_chunks [] s = ok []
  get_chunks (id ∷ ids) s = do c ← get_chunk id s; cs ← get_chunks ids s; ok (c ∷ cs)

  unfoldable pub put_stats : NamespaceStats → S → Result S
  put_stats st s = save tx json json.marshal_stats (stats st.namespace_id) st s

  unfoldable pub get_stats : Bytes → S → Result NamespaceStats
  get_stats ns_id s = elim (tx.get (key_bytes (stats ns_id)) s) [
    | ok raw ↦ json.unmarshal_stats raw
    | err e ↦ elim (is_not_found e) [ true ↦ ok (empty_stats ns_id) | false ↦ err e ]
  ]

  unfoldable pub put_namespace : Namespace → S → Result S
  put_namespace n s = save tx json json.marshal_ns (ns n.id) n s

  unfoldable pub get_namespace : Bytes → S → Result Namespace
  get_namespace id s = do raw ← tx.get (key_bytes (ns id)) s; json.unmarshal_ns raw

  unfoldable pub delete_namespace : Bytes → S → Result S
  delete_namespace id s = tx.delete (key_bytes (ns id)) s

  -- The callback of a Scan that collects records: the documents are what the scan visits.
  unfoldable pub collect : {A : Type 0} → (V → Result A) → List V → Result (List A)
  collect unmarshal [] = ok []
  collect unmarshal (v ∷ vs) = do a ← unmarshal v; rest ← collect unmarshal vs; ok (a ∷ rest)
