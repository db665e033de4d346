-- ===== src/Index/Tests.antt =====
-- Transactions of the index on the in-memory backend, with documents that are the records.
use blobs.Base.{
  ◌∙◌, ◌≡◌, ◌≢◌, ◌↔◌, refl, inl, inr, true, false, ◌&&◌, List, [], ◌∷◌, All, Option, none, some,
  if◌then◌else◌, arith, bytes_eq,
}
use blobs.Base.Bytes.{Bytes}
use blobs.Base.Int.{pos, ◌≤ℤ◌}
use blobs.Errors.{ok, err, Error, not_found, failed}
use blobs.Object.{RefEntry, BlobEntry, ChunkEntry, Namespace, NamespaceStats}
use blobs.Index.Table.{lookup}
use blobs.Index.Memory.{
  MemTx, commit, tx_get, tx_put, tx_delete, copy, erase_all, mem_ops, mem_IsTx, commit_lem,
}
use blobs.Index.Keys.{Key, ref, blob, chunk, stats, key_bytes, IsKey}
use blobs.Index.Json.{Json, IsJson}
use blobs.Index.Commit.{commit_put, commit_delete}
use blobs.Index.Commit.WellFormed.{IsIndex, stored-IsIndex, stored_here, stored_other}
use blobs.Index.Commit.Chunks.{Has}
use blobs.Index.Commit.Put.{commit_put_lem, commit_delete_lem}
use blobs.Index.Refs.{commit_rename_ref}
use blobs.Index.Refs.Rename.{commit_rename_ref_lem}
use blobs.Index.Reap.{Verdict, reap_physical_page_if_dead}
use blobs.Index.Reap.Safety.{IsHome, reap_physical_page_if_dead_lem}

pub data Doc : Type 0 where
  of_ref : RefEntry → Doc
  of_blob : BlobEntry → Doc
  of_chunk : ChunkEntry → Doc
  of_stats : NamespaceStats → Doc
  of_ns : Namespace → Doc

abbrev pub bad_doc : Error
bad_doc = failed "index: unmarshal"

abbrev pub doc_json : Json Doc
doc_json = record {
  marshal_ref = λ r. ok (of_ref r);
  unmarshal_ref = λ d. elim d [ of_ref r ↦ ok r | _ ↦ err bad_doc ];
  marshal_blob = λ b. ok (of_blob b);
  unmarshal_blob = λ d. elim d [ of_blob b ↦ ok b | _ ↦ err bad_doc ];
  marshal_chunk = λ c. ok (of_chunk c);
  unmarshal_chunk = λ d. elim d [ of_chunk c ↦ ok c | _ ↦ err bad_doc ];
  marshal_stats = λ s. ok (of_stats s);
  unmarshal_stats = λ d. elim d [ of_stats s ↦ ok s | _ ↦ err bad_doc ];
  marshal_ns = λ n. ok (of_ns n);
  unmarshal_ns = λ d. elim d [ of_ns n ↦ ok n | _ ↦ err bad_doc ];
}

abbrev pub doc_IsJson : IsJson doc_json
doc_IsJson = record {
  ref_doc = of_ref;
  blob_doc = of_blob;
  chunk_doc = of_chunk;
  stats_doc = of_stats;
  ns_doc = of_ns;
  marshals_ref = λ r. refl;
  unmarshals_ref = λ r. refl;
  marshals_blob = λ b. refl;
  unmarshals_blob = λ b. refl;
  marshals_chunk = λ c. refl;
  unmarshals_chunk = λ c. refl;
  marshals_stats = λ s. refl;
  unmarshals_stats = λ s. refl;
  marshals_ns = λ n. refl;
  unmarshals_ns = λ n. refl;
}

abbrev pub name : Bytes
name = 97 ∷ 98 ∷ []

abbrev pub a_ref : RefEntry
a_ref = record {
  namespace_id = name;
  key = 107 ∷ [];
  blob_id = 49 ∷ [];
  metadata = record {
    content_type = [];
    size = 10;
    blob_id = 49 ∷ [];
    chunk_count = 1;
    created_at = 0;
    updated_at = 0;
    custom = [];
  };
}

abbrev pub a_chunk : ChunkEntry
a_chunk = record {
  chunk_id = 99 ∷ [];
  blob_id = 49 ∷ [];
  segment_id = 1;
  namespace_id = name;
  page_offset = 128;
  page_count = 2;
  len = 10;
  seq_no = 0;
  ref_count = pos 1;
  nonce = [];
  tag = [];
}

abbrev pub a_blob : BlobEntry
a_blob = record {
  blob_id = 49 ∷ [];
  chunk_ids = (99 ∷ []) ∷ [];
  total_size = 10;
  ref_count = pos 0;
  created_at = 0;
}

abbrev pub empty_tx : MemTx Doc
empty_tx = record { parent = []; writes = []; deletes = [] }

pub empty-IsIndex : IsIndex mem_IsTx doc_IsJson empty_tx
unfolding commit lookup copy erase_all
empty-IsIndex (Key.ns id) v = inl refl
empty-IsIndex (ref n k) v = inl refl
empty-IsIndex (blob id) v = inl refl
empty-IsIndex (chunk id) v = inl refl
empty-IsIndex (stats id) v = inl refl

abbrev view_of : Key → MemTx Doc → Option Doc
view_of k s = lookup (key_bytes k) (commit s)

abbrev pub ref_tx : MemTx Doc
ref_tx = tx_put (key_bytes (ref name (107 ∷ []))) (of_ref a_ref) empty_tx

pub ref_tx-IsIndex : IsIndex mem_IsTx doc_IsJson ref_tx
ref_tx-IsIndex =
    stored-IsIndex mem_IsTx doc_IsJson (ref name (107 ∷ [])) (of_ref a_ref) empty_tx (omega arith)
      (inr (a_ref, refl)) empty-IsIndex

ref_found : view_of (ref name (107 ∷ [])) ref_tx ≡ some (of_ref a_ref)
ref_found = stored_here mem_IsTx doc_IsJson (ref name (107 ∷ [])) (of_ref a_ref) empty_tx

pub empty_view : (q : Bytes) → lookup q (commit empty_tx) ≡ none
unfolding commit lookup copy erase_all
empty_view q = refl

key_free : view_of (ref name (108 ∷ [])) ref_tx ≡ none
key_free =
    stored_other mem_IsTx doc_IsJson (ref name (107 ∷ [])) (ref name (108 ∷ [])) (of_ref a_ref)
      empty_tx (omega arith) (omega arith) (λ e. ground arith)
    ∙ empty_view (key_bytes (ref name (108 ∷ [])))

abbrev chunk_tx : MemTx Doc
chunk_tx = tx_put (key_bytes (chunk (99 ∷ []))) (of_chunk a_chunk) empty_tx

commit_lem_example :
    (tx_get (7 ∷ []) ref_tx
      ≡ elim (lookup (7 ∷ []) (commit ref_tx)) [ none ↦ err (not_found [] []) | some w ↦ ok w ])
    × (lookup (7 ∷ []) (commit (tx_put (8 ∷ []) (of_ref a_ref) ref_tx)) ≡ (
        if bytes_eq (8 ∷ []) (7 ∷ [])
        then some (of_ref a_ref)
        else lookup (7 ∷ []) (commit ref_tx)))
    × (lookup (7 ∷ []) (commit (tx_delete (8 ∷ []) ref_tx))
        ≡ (if bytes_eq (8 ∷ []) (7 ∷ []) then none else lookup (7 ∷ []) (commit ref_tx)))
commit_lem_example = commit_lem (7 ∷ []) (8 ∷ []) (of_ref a_ref) ref_tx

reap_physical_page_if_dead_lem_example :
    (v : Verdict (MemTx Doc)) × (reap_physical_page_if_dead mem_ops doc_json
        (99 ∷ [])
        1
        128
        chunk_tx
      ≡ ok v)
    × ((v.safe_to_reap ≡ false) ↔ (IsHome a_chunk 1 128 × (pos 1 ≤ℤ pos 1)))
    × ((v.record_deleted ≡ true) ↔ (IsHome a_chunk 1 128 × (pos 1 ≤ℤ pos 0)))
    × ((q : Bytes)
        → lookup q (commit v.state) ≡ (
            if v.record_deleted && bytes_eq (key_bytes (chunk (99 ∷ []))) q
            then none
            else lookup q (commit chunk_tx)))
reap_physical_page_if_dead_lem_example =
    reap_physical_page_if_dead_lem mem_ops doc_json mem_IsTx doc_IsJson (99 ∷ []) 1 128 chunk_tx
      a_chunk (stored_here mem_IsTx doc_IsJson (chunk (99 ∷ [])) (of_chunk a_chunk) empty_tx)

commit_rename_ref_lem_example :
    (s' : MemTx Doc) × (commit_rename_ref mem_ops doc_json name (107 ∷ []) (108 ∷ []) ref_tx
      ≡ ok s')
    × (view_of (ref name (108 ∷ [])) s' ≡ some (of_ref (record a_ref { key = 108 ∷ [] })))
    × (view_of (ref name (107 ∷ [])) s' ≡ none)
    × ((q : Bytes)
        → q ≢ key_bytes (ref name (107 ∷ []))
        → q ≢ key_bytes (ref name (108 ∷ []))
        → lookup q (commit s') ≡ lookup q (commit ref_tx))
commit_rename_ref_lem_example =
    commit_rename_ref_lem mem_ops doc_json mem_IsTx doc_IsJson name (107 ∷ []) (108 ∷ []) ref_tx
      a_ref ref_found key_free

commit_put_lem_example :
    (reused : List ChunkEntry) × (s' : MemTx Doc) × (commit_put mem_ops doc_json a_ref a_blob
        (a_chunk ∷ [])
        empty_tx
      ≡ ok (reused, s'))
    × IsIndex mem_IsTx doc_IsJson s'
    × (view_of (ref name (107 ∷ [])) s' ≡ some (of_ref a_ref))
    × ((n k : Bytes)
        → IsKey (ref n k)
        → ref name (107 ∷ []) ≢ ref n k
        → view_of (ref n k) s' ≡ view_of (ref n k) empty_tx)
    × All (λ (c : ChunkEntry). Has mem_IsTx doc_IsJson name c.chunk_id s') (a_chunk ∷ [])
commit_put_lem_example =
    commit_put_lem mem_IsTx doc_IsJson a_ref a_blob (a_chunk ∷ []) empty_tx (omega arith) (refl, tt)
      empty-IsIndex

commit_delete_lem_example :
    (s' : MemTx Doc) × (commit_delete mem_ops doc_json name (107 ∷ []) ref_tx ≡ ok s')
    × IsIndex mem_IsTx doc_IsJson s'
    × (view_of (ref name (107 ∷ [])) s' ≡ none)
    × ((m q : Bytes)
        → IsKey (ref m q)
        → ref name (107 ∷ []) ≢ ref m q
        → view_of (ref m q) s' ≡ view_of (ref m q) ref_tx)
commit_delete_lem_example =
    commit_delete_lem mem_IsTx doc_IsJson name (107 ∷ []) a_ref ref_tx (omega arith) ref_tx-IsIndex
      ref_found
