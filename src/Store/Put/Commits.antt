-- ===== src/Store/Put/Commits.antt =====
-- Put commits a blob wholly or not at all.
use mathlib.Core.List.{flatten}
use blobs.Base.{◌≡◌, ◌≢◌, ◌⊎◌, List, Option, All, some, length, map}
use blobs.Base.Bytes.{Bytes}
use blobs.Base.Int.{pos}
use blobs.Errors.{Error, ok, err}
use blobs.Object.{Metadata, BlobEntry, BlobInfo}
use blobs.Step.{Step}
use blobs.Index.Tx.{Tx, IsTx}
use blobs.Index.Json.{Json, IsJson}
use blobs.Index.Keys.{ref, key_bytes, IsKey}
use blobs.Index.Commit.Chunks.{Has}
use blobs.Index.Commit.Put.{Counted}
use blobs.Index.Commit.WellFormed.{IsIndex}
use blobs.Store.Handle.{Store}
use blobs.Store.Parts.{Parts}
use blobs.Store.Put.{PutOptions, Env}
use blobs.Volume.Address.{blob_id_from_digest, chunk_id_from_content}
use blobs.Volume.Engine.{Engine}

module _ {S V : Type 0} {tx : Tx S V} {json : Json V} (t : IsTx tx) (j : IsJson json) (env : Env)
    (ns_id key : Bytes) (opts : PutOptions) (content : Bytes) (failure : Option Error) where
  -- The record of a new blob with the content: its chunks are the pieces in their order.
  abbrev pub manifest : BlobEntry
  manifest = record {
    blob_id = blob_id_from_digest (env.sha256 (flatten (env.cut content failure)));
    chunk_ids = map (λ p. chunk_id_from_content (env.sha256 p)) (env.cut content failure);
    total_size = length (flatten (env.cut content failure));
    ref_count = pos 1;
    created_at = env.now;
  }

  -- The index after Put: the key has the content, whose blob is counted and whose every piece has a
  -- chunk record of the namespace with a reference, and no other key has changed.
  abbrev pub Committed : S → Metadata → S → Type 0
  Committed s meta s' =
      IsIndex t j s'
      × (meta.blob_id ≡ blob_id_from_digest (env.sha256 (flatten (env.cut content failure))))
      × (meta.size ≡ length (flatten (env.cut content failure)))
      × (t.view (key_bytes (ref ns_id key)) s'
          ≡ some (
              j.ref_doc (record {
                namespace_id = ns_id;
                key = key;
                blob_id = meta.blob_id;
                metadata = meta;
              })))
      × ((n k : Bytes)
          → IsKey (ref n k)
          → ref ns_id key ≢ ref n k
          → t.view (key_bytes (ref n k)) s' ≡ t.view (key_bytes (ref n k)) s)
      × All (λ p. Has t j ns_id (chunk_id_from_content (env.sha256 p)) s') (env.cut content failure)
      × Counted t j manifest s s'

  -- Whatever Put gives: committed if it succeeds, and if not, either committed or untouched.
  abbrev pub IsAtomic : S → Step S BlobInfo → Type 0
  IsAtomic s (s', ok info) =
      (info.key ≡ key) × (info.namespace_id ≡ ns_id) × Committed s info.metadata s'
  IsAtomic s (s', err x) = (s' ≡ s) ⊎ ((meta : Metadata) × Committed s meta s')

  abbrev index_of : Step (Parts S) BlobInfo → Step S BlobInfo
  index_of (p, r) = (p.index, r)

  abbrev pub store_index : Step (Store S Engine) BlobInfo → Step S BlobInfo
  store_index (st, r) = (st.index, r)
