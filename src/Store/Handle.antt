-- ===== src/Store/Handle.antt =====
-- NamespaceHandle (store.go): the guards, Get, Head, Rename, Delete and Verify. The engine's
-- ReadChunk is the argument `load`, and what ListRefs gives is an argument. The locks are left out,
-- so a guard is a test.
pub mod Verified
use blobs.Base.{
  ℕ, Bool, true, false, List, [], ◌∷◌, Option, none, some, length, ◌==◌, if◌then◌else◌,
}
use blobs.Base.Bytes.{Bytes}
use blobs.Errors.{
  Error, Result, ok, err, wrapped, closed, not_found, invalid_key, is_not_found, refuse_if, ◌>>=◌,
}
use blobs.Encryption.{wrap_err}
use blobs.Object.{BlobInfo, RefEntry, ChunkEntry}
use blobs.Index.Table.{Table, lookup}
use blobs.Index.Tx.{Tx}
use blobs.Index.Json.{Json}
use blobs.Index.Commit.{commit_delete}
use blobs.Index.Refs.{commit_rename_ref}
use blobs.Index.Records.{get_ref, get_blob, get_chunks}
use blobs.Store.Quota.{validate_key}
use blobs.Store.Reader.{ChunkReader, new_chunk_reader}

-- `E` is the type of the engines; `index` is the state of the index.
pub record Store (S E : Type 0) : Type 0 where
  pub is_closed : Bool
  pub engines : Table E
  pub index : S

module _ {S E : Type 0} where
  unfoldable pub begin_op : Store S E → Result (Unit {0})
  begin_op st = refuse_if st.is_closed closed

  -- beginNSOp and beginExclusiveNSOp, which differ in their locks.
  unfoldable pub begin_ns_op : Bytes → Store S E → Result E
  begin_ns_op ns_id st = do
    _ ← begin_op st
    elim (lookup ns_id st.engines) [ none ↦ err (not_found ns_id []) | some eng ↦ ok eng ]

module _ {S V : Type 0} (tx : Tx S V) (json : Json V) where
  -- The chunk records of a blob, in order.
  unfoldable pub locations_of : Bytes → S → Result (List ChunkEntry)
  locations_of id s = do
    b ← wrap_err (get_blob tx json id s) (wrapped "store: get blob manifest")
    wrap_err (get_chunks tx json b.chunk_ids s) (wrapped "store: get chunk locations")

module _ {S E V : Type 0} (tx : Tx S V) (json : Json V) where
  unfoldable pub get_chunk_reader : Bytes → Bytes → Store S E → Result ChunkReader
  get_chunk_reader ns_id key st = do
    _ ← validate_key key
    _ ← begin_ns_op ns_id st
    r ← get_ref tx json ns_id key st.index
    locations ← locations_of tx json r.blob_id st.index
    ok (new_chunk_reader locations)

  unfoldable pub head : Bytes → Bytes → Store S E → Result BlobInfo
  head ns_id key st = do
    _ ← validate_key key
    _ ← begin_op st
    r ← get_ref tx json ns_id key st.index
    ok (record { key = r.key; namespace_id = r.namespace_id; metadata = r.metadata })

  unfoldable pub rename : Bytes → Bytes → Bytes → Store S E → Result (Store S E)
  rename ns_id old_key new_key st = do
    _ ← validate_key old_key
    _ ← validate_key new_key
    _ ← begin_op st
    s ← commit_rename_ref tx json ns_id old_key new_key st.index
    ok (record st { index = s })

  -- A missing key is no error.
  unfoldable pub delete : Bytes → Bytes → Store S E → Result (Store S E)
  delete ns_id key st = do
    _ ← validate_key key
    _ ← begin_op st
    elim (commit_delete tx json ns_id key st.index) [
      | ok s ↦ ok (record st { index = s })
      | err e ↦ if is_not_found e then ok st else err e
    ]

  module _ (load : E → ChunkEntry → Result Bytes) where
    -- The loop of Verify over the chunks of a blob.
    unfoldable pub verify_chunks : E → List ChunkEntry → Result (Unit {0})
    verify_chunks eng [] = ok tt
    verify_chunks eng (c ∷ cs) = do _ ← load eng c; verify_chunks eng cs

    unfoldable pub verify_refs : E → S → List RefEntry → Result (Unit {0})
    verify_refs eng s [] = ok tt
    verify_refs eng s (r ∷ rs) = do
      b ← wrap_err (get_blob tx json r.blob_id s) (wrapped "store: verify: missing manifest")
      locations ←
          wrap_err (get_chunks tx json b.chunk_ids s) (wrapped "store: verify: missing location")
      _ ← verify_chunks eng locations
      verify_refs eng s rs

    -- Verify of the references that ListRefs gives.
    unfoldable pub verify : Bytes → List RefEntry → Store S E → Result (Unit {0})
    verify ns_id refs st = do eng ← begin_ns_op ns_id st; verify_refs eng st.index refs
