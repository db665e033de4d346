-- ===== src/Store/Recovery.antt =====
-- replayWAL (store.go): blobs of the write-ahead logs that the index does not have are registered.
-- The index is written record by record, so an error leaves what was written before it.
pub mod Blobs
pub mod Entry
pub mod Logs
mod Tests
use Prim.Native.String.{String}
use blobs.Base.{
  Bool, true, false, ℕ, zero, suc, ◌+◌, List, [], ◌∷◌, Option, none, some, if◌then◌else◌, length,
  replicate,
}
use blobs.Base.Bytes.{Bytes}
use blobs.Base.Int.{ℤ, pos}
use blobs.Errors.{Error, Result, ok, err, wrapped, panicked, is_not_found}
use blobs.Object.{BlobEntry, ChunkEntry}
use blobs.Index.Tx.{Tx}
use blobs.Index.Json.{Json}
use blobs.Index.Records.{get_blob, put_blob, put_chunk}
use blobs.Volume.Files.{Files, read_file}
use blobs.Volume.Engine.{Engine}
use blobs.Volume.Scan.{list_segment_ids}
use blobs.Volume.Wal.{WalEntry, parse_wal}

-- `ids[i] = id`, which panics out of range.
unfoldable pub set_at : ℕ → Bytes → List Bytes → Option (List Bytes)
set_at i id [] = none
set_at zero id (x ∷ xs) = some (id ∷ xs)
set_at (suc i) id (x ∷ xs) = elim (set_at i id xs) [ none ↦ none | some ys ↦ some (x ∷ ys) ]

-- A chunk of the log, with the count that replayWAL presumes.
unfoldable pub presumed : ChunkEntry → ChunkEntry
presumed c = record c { ref_count = pos 1 }

-- The blob record that replayWAL makes; it has no time.
unfoldable pub recovered : Bytes → List Bytes → ℕ → BlobEntry
recovered id ids total = record {
  blob_id = id;
  chunk_ids = ids;
  total_size = total;
  ref_count = pos 1;
  created_at = 0;
}

-- An error of the index behind a text, or the next step.
unfoldable pub continue_with {ℓ} :
    {S : Type 0} {A : Type ℓ} → String → S → Result S → (S → S × Result A) → S × Result A
continue_with label s (ok s') next = next s'
continue_with label s (err e) next = (s, err (wrapped label e))

-- `if err != nil { return err }` behind a round of a loop.
unfoldable pub and_then :
    {S : Type 0} → S × Result (Unit {0}) → (S → S × Result (Unit {0})) → S × Result (Unit {0})
and_then (s, err e) next = (s, err e)
and_then (s, ok _) next = next s

module _ {S V : Type 0} (tx : Tx S V) (json : Json V) where
  -- The loop over the chunks of an entry: the size so far, and the chunk IDs by their numbers.
  unfoldable pub replay_chunks : List ChunkEntry → ℕ → List Bytes → S → S × Result (ℕ × List Bytes)
  replay_chunks [] total ids s = (s, ok (total, ids))
  replay_chunks (c ∷ cs) total ids s =
      continue_with "replay chunk" s (put_chunk tx json (presumed c) s) λ s'.
        elim (set_at c.seq_no c.chunk_id ids) [
          | none ↦ (s', err (panicked "index out of range"))
          | some ids' ↦ replay_chunks cs (total + c.len) ids' s'
        ]

  -- The record of an entry's blob, once its chunks are registered.
  unfoldable pub register_blob : Bytes → S × Result (ℕ × List Bytes) → S × Result (Unit {0})
  register_blob id (s, err e) = (s, err e)
  register_blob id (s, ok (total, ids)) =
      continue_with "replay blob" s (put_blob tx json (recovered id ids total) s) λ s'. (s', ok tt)

  unfoldable pub replay_entry : WalEntry → S → S × Result (Unit {0})
  replay_entry e s = elim (get_blob tx json e.blob_id s) [
    | ok _ ↦ (s, ok tt)
    | err x ↦ elim (is_not_found x) [
      | false ↦ (s, err (wrapped "check blob" x))
      | true ↦ register_blob e.blob_id (replay_chunks e.chunks 0 (replicate (length e.chunks) []) s)
    ]
  ]

  unfoldable pub replay_entries : List WalEntry → S → S × Result (Unit {0})
  replay_entries [] s = (s, ok tt)
  replay_entries (e ∷ es) s = and_then (replay_entry e s) (replay_entries es)

  unfoldable pub replay_segments : Engine → List ℕ → S → S × Result (Unit {0})
  replay_segments eng [] s = (s, ok tt)
  replay_segments eng (seq ∷ seqs) s =
      and_then (replay_entries (parse_wal (read_file seq eng.wals) eng.ns_id eng.page_size) s)
        (replay_segments eng seqs)

  unfoldable pub replay_wal : Engine → S → S × Result (Unit {0})
  replay_wal eng s = replay_segments eng (list_segment_ids eng) s
