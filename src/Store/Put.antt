-- ===== src/Store/Put.antt =====
-- NamespaceHandle.Put (store.go), from the guard to the reaping of duplicates. What the reader
-- gives are its bytes and the error that ends it, none for io.EOF and another than
-- io.ErrUnexpectedEOF. The chunker, mimetype.Detect, the hashes, the random source and the clock
-- are arguments.
pub mod Commits
pub mod Tests
use blobs.Base.{ℕ, ◌==◌, ltb, if◌then◌else◌, List, [], ◌∷◌, Option, none, some, length, take, map}
use blobs.Base.Bytes.{Bytes}
use blobs.Base.Int.{pos}
use blobs.Errors.{Error, Result, ok, err, wrapped}
use blobs.Encryption.{wrap_err}
use blobs.Object.{Metadata, RefEntry, BlobEntry, ChunkEntry, BlobInfo}
use blobs.Step.{Step, ◌>>=◌, attempt, update}
use blobs.Index.Tx.{Tx}
use blobs.Index.Json.{Json}
use blobs.Index.Commit.{commit_put}
use blobs.Index.Records.{get_namespace, get_stats}
use blobs.Store.Handle.{Store}
use blobs.Store.Parts.{Parts, on_engine, on_namespace}
use blobs.Store.Quota.{validate_key, check_quota}
use blobs.Volume.Blob.{WriteResult, write_blob}
use blobs.Volume.Engine.{Engine}
use blobs.Volume.Write.{mark_deleted}

pub record PutOptions : Type 0 where
  pub content_type : Bytes
  pub custom : List (Bytes × Bytes)

abbrev pub mime_sniff_limit : ℕ
mime_sniff_limit = 3072

-- The metadata and the records that Put commits for a written blob.
unfoldable pub metadata_of : ℕ → Bytes → PutOptions → WriteResult → Metadata
metadata_of now content_type opts r = record {
  content_type = content_type;
  size = r.total_size;
  blob_id = r.blob_id;
  chunk_count = length r.chunks;
  created_at = now;
  updated_at = now;
  custom = opts.custom;
}

unfoldable pub ref_of : Bytes → Bytes → Metadata → RefEntry
ref_of ns_id key meta = record {
  namespace_id = ns_id;
  key = key;
  blob_id = meta.blob_id;
  metadata = meta;
}

unfoldable pub blob_of : ℕ → WriteResult → BlobEntry
blob_of now r = record {
  blob_id = r.blob_id;
  chunk_ids = map (λ c. c.chunk_id) r.chunks;
  total_size = r.total_size;
  ref_count = pos 0;
  created_at = now;
}

-- The loop over the chunks that CommitPut reuses: their new copies are marked deleted.
unfoldable pub reap_reused : {S : Type 0} → List ChunkEntry → Parts S → Step (Parts S) (Unit {0})
reap_reused [] p = (p, ok tt)
reap_reused (c ∷ cs) p =
    on_engine p (wrapped "store: reap duplicate chunk") (mark_deleted p.engine c) >>= λ p' _.
    reap_reused cs p'

-- What of the package's surroundings Put depends on.
pub record Env : Type 0 where
  pub sha256 : Bytes → Bytes
  pub crc32 : Bytes → ℕ
  pub random : ℕ → Result Bytes
  pub now : ℕ
  pub cut : Bytes → Option Error → List Bytes
  pub detect : Bytes → Bytes

-- The sniffing of the first bytes; the reader that it returns gives what the old one gave.
unfoldable pub detect_content_type : (Bytes → Bytes) → Bytes → Option Error → Result Bytes
detect_content_type detect content failure =
    if ltb (length content) mime_sniff_limit
    then elim failure [ none ↦ ok (detect content) | some x ↦ err x ]
    else ok (detect (take mime_sniff_limit content))

unfoldable pub content_type_of : Env → PutOptions → Bytes → Option Error → Result Bytes
content_type_of env opts content failure =
    if length opts.content_type == 0
    then wrap_err (detect_content_type env.detect content failure)
        (wrapped "store: detect content type")
    else ok opts.content_type

module _ {S V : Type 0} (tx : Tx S V) (json : Json V) (env : Env) (ns_id key : Bytes)
    (opts : PutOptions) where
  -- Put behind WriteBlob. A quota error leaves the written chunks to a later Compact.
  unfoldable pub commit_written : Bytes → WriteResult → Parts S → Step (Parts S) BlobInfo
  commit_written content_type r p =
      attempt p
        (check_quota (get_namespace tx json ns_id p.index) (get_stats tx json ns_id p.index) ns_id
          (pos r.total_size))
        λ _.
          let meta = metadata_of env.now content_type opts r in
          update p (wrapped "store: commit to index")
            (commit_put tx json (ref_of ns_id key meta) (blob_of env.now r) r.chunks p.index)
            λ done. reap_reused done.0 (record p { index = done.1 }) >>= λ p' _.
              let info : BlobInfo = record { key = key; namespace_id = ns_id; metadata = meta } in
              (p', ok info)

  -- Put behind the guard.
  unfoldable pub put_blob_of : Bytes → Option Error → Parts S → Step (Parts S) BlobInfo
  put_blob_of content failure p =
      attempt p (content_type_of env opts content failure) λ content_type.
        on_engine p (wrapped "store: write blob") (
          write_blob env.sha256 env.crc32 env.random env.now (env.cut content failure) failure
            p.engine)
        >>= λ p' r. commit_written content_type r p'

  unfoldable pub put : Bytes → Option Error → Store S Engine → Step (Store S Engine) BlobInfo
  put content failure st =
      attempt st (validate_key key) λ _. on_namespace ns_id st (put_blob_of content failure)
