-- ===== src/Store/Rebuild.antt =====
-- RebuildIndex (store.go): chunk and blob records from the headers of the pages. Go walks over its
-- map of blobs in any order; here they come in the order in which the scan meets them.
pub mod Registers
mod Tests
use blobs.Base.{
  ℕ, ◌+◌, ◌%◌, ◌^◌, Bool, true, false, ◌==◌, ltb, if◌then◌else◌, List, [], ◌∷◌, Option, none, some,
  length, replicate, bytes_eq,
}
use blobs.Base.Bytes.{Bytes}
use blobs.Errors.{Error, Result, ok, err, failed, wrapped, panicked}
use blobs.Object.{Namespace, ChunkEntry}
use blobs.Step.{Step, ◌>>=◌, update}
use blobs.Index.Tx.{Tx}
use blobs.Index.Json.{Json}
use blobs.Index.Records.{get_namespace, put_chunk, put_blob}
use blobs.Store.Handle.{Store}
use blobs.Store.Parts.{Parts, on_index, on_namespace}
use blobs.Store.Recovery.{set_at, presumed, recovered}
use blobs.Volume.Engine.{Engine}
use blobs.Volume.Flags.{is_deleted}
use blobs.Volume.Header.{PageHeader}
use blobs.Volume.Scan.{flags_of, scan_segments}

-- `chunk_ids` is the map from a chunk's number to its ID.
pub record BlobAccum : Type 0 where
  pub blob_id : Bytes
  pub chunk_ids : List (ℕ × Bytes)
  pub total_size : ℕ
  pub total_chunks : ℕ

abbrev pub new_accum : Bytes → BlobAccum
new_accum id = record { blob_id = id; chunk_ids = []; total_size = 0; total_chunks = 0 }

unfoldable pub set_seq : ℕ → Bytes → List (ℕ × Bytes) → List (ℕ × Bytes)
set_seq n id [] = (n, id) ∷ []
set_seq n id ((m, old) ∷ r) =
    let later = (m, old) ∷ set_seq n id r in if m == n then (n, id) ∷ r else later

unfoldable pub add_page : ChunkEntry → PageHeader → BlobAccum → BlobAccum
add_page c h acc = record acc {
  chunk_ids = set_seq c.seq_no c.chunk_id acc.chunk_ids;
  total_size = acc.total_size + c.len;
  total_chunks = if ltb acc.total_chunks h.total_chunks then h.total_chunks else acc.total_chunks;
}

-- The sums of the page's blob, which is new where no page of it came before.
unfoldable pub accumulate : ChunkEntry → PageHeader → List BlobAccum → List BlobAccum
accumulate c h [] = add_page c h (new_accum c.blob_id) ∷ []
accumulate c h (acc ∷ accs) =
    let later = acc ∷ accumulate c h accs in
    if bytes_eq acc.blob_id c.blob_id then add_page c h acc ∷ accs else later

-- `orderedChunkIDs[seq] = cid` for each entry of the map; `none` is a panic out of range.
unfoldable pub order_ids : List (ℕ × Bytes) → List Bytes → Option (List Bytes)
order_ids [] ids = some ids
order_ids ((n, id) ∷ r) ids = elim (set_at n id ids) [ none ↦ none | some ids' ↦ order_ids r ids' ]

-- All chunks of the blob have a page that is not deleted.
unfoldable pub is_whole : BlobAccum → Bool
is_whole acc = length acc.chunk_ids % 2 ^ 32 == acc.total_chunks

unfoldable pub is_encrypted : Namespace → Bool
is_encrypted n = elim n.encryption [ none ↦ false | some info ↦ info.enabled ]

module _ {S V : Type 0} (tx : Tx S V) (json : Json V) where
  -- The scan of RebuildIndex.
  unfoldable pub rebuild_pages :
      List (ChunkEntry × PageHeader) → List BlobAccum → S → Step S (List BlobAccum)
  rebuild_pages [] accs s = (s, ok accs)
  rebuild_pages ((c, h) ∷ r) accs s = elim (is_deleted (flags_of h)) [
    | true ↦ rebuild_pages r accs s
    | false ↦
        update s (λ x. wrapped "store: rebuild index scan" (wrapped "rebuild chunk" x))
          (put_chunk tx json (presumed c) s) λ s'. rebuild_pages r (accumulate c h accs) s'
  ]

  -- The blob's record, with its IDs in order.
  unfoldable pub put_rebuilt : BlobAccum → Option (List Bytes) → S → Step S (Unit {0})
  put_rebuilt acc none s = (s, err (panicked "index out of range"))
  put_rebuilt acc (some ids) s =
      update s (wrapped "store: rebuild blob")
        (put_blob tx json (recovered acc.blob_id ids acc.total_size) s) λ s'. (s', ok tt)

  -- The loop over the blobs, which passes over those that lack a chunk.
  unfoldable pub rebuild_blobs : List BlobAccum → S → Step S (Unit {0})
  rebuild_blobs [] s = (s, ok tt)
  rebuild_blobs (acc ∷ accs) s = elim (is_whole acc) [
    | false ↦ rebuild_blobs accs s
    | true ↦ put_rebuilt acc (order_ids acc.chunk_ids (replicate acc.total_chunks [])) s >>= λ s' _.
        rebuild_blobs accs s'
  ]

  unfoldable pub rebuild : List (ChunkEntry × PageHeader) → S → Step S (Unit {0})
  rebuild pages s = rebuild_pages pages [] s >>= λ s' accs. rebuild_blobs accs s'

  -- An error of GetNamespace counts as a namespace without encryption.
  unfoldable pub is_refused : Bytes → S → Bool
  is_refused ns_id s = elim (get_namespace tx json ns_id s) [
    | ok n ↦ is_encrypted n
    | err _ ↦ false
  ]

  unfoldable pub rebuild_index : Bytes → Store S Engine → Step (Store S Engine) (Unit {0})
  rebuild_index ns_id st =
      let go =
        on_namespace ns_id st λ p. on_index p (λ x. x) (rebuild (scan_segments p.engine) p.index) in
      if is_refused ns_id st.index
      then (st, err (failed "store: RebuildIndex is not supported for encrypted namespace"))
      else go
