-- ===== src/Index/Json.antt =====
-- marshal and unmarshal (index.go). encoding/json is not code of the repository: its encoding of
-- the records is a parameter, and `V` is the type of the documents.
use blobs.Base.{◌≡◌}
use blobs.Errors.{Result, ok}
use blobs.Object.{RefEntry, BlobEntry, ChunkEntry, Namespace, NamespaceStats}

pub record Json (V : Type 0) : Type 0 where
  pub marshal_ref : RefEntry → Result V
  pub unmarshal_ref : V → Result RefEntry
  pub marshal_blob : BlobEntry → Result V
  pub unmarshal_blob : V → Result BlobEntry
  pub marshal_chunk : ChunkEntry → Result V
  pub unmarshal_chunk : V → Result ChunkEntry
  pub marshal_stats : NamespaceStats → Result V
  pub unmarshal_stats : V → Result NamespaceStats
  pub marshal_ns : Namespace → Result V
  pub unmarshal_ns : V → Result Namespace

-- What the package documents: a struct of strings, numbers and byte slices is marshalled without
-- an error, and unmarshalled to what it was. (The strings are UTF-8 text; of another byte the
-- package makes U+FFFD.)
pub record IsJson {V : Type 0} (json : Json V) : Type 0 where
  pub ref_doc : RefEntry → V
  pub blob_doc : BlobEntry → V
  pub chunk_doc : ChunkEntry → V
  pub stats_doc : NamespaceStats → V
  pub ns_doc : Namespace → V
  pub marshals_ref : (r : RefEntry) → json.marshal_ref r ≡ ok (ref_doc r)
  pub unmarshals_ref : (r : RefEntry) → json.unmarshal_ref (ref_doc r) ≡ ok r
  pub marshals_blob : (b : BlobEntry) → json.marshal_blob b ≡ ok (blob_doc b)
  pub unmarshals_blob : (b : BlobEntry) → json.unmarshal_blob (blob_doc b) ≡ ok b
  pub marshals_chunk : (c : ChunkEntry) → json.marshal_chunk c ≡ ok (chunk_doc c)
  pub unmarshals_chunk : (c : ChunkEntry) → json.unmarshal_chunk (chunk_doc c) ≡ ok c
  pub marshals_stats : (s : NamespaceStats) → json.marshal_stats s ≡ ok (stats_doc s)
  pub unmarshals_stats : (s : NamespaceStats) → json.unmarshal_stats (stats_doc s) ≡ ok s
  pub marshals_ns : (n : Namespace) → json.marshal_ns n ≡ ok (ns_doc n)
  pub unmarshals_ns : (n : Namespace) → json.unmarshal_ns (ns_doc n) ≡ ok n
