-- ===== src/Store/Recovery/Tests.antt =====
-- A log of one blob, replayed into an index that has another, and a namespace that is verified.
use blobs.Base.{
  if◌then◌else◌, ◌==◌, true, false, bytes_eq_refl, ℕ, ◌≡◌, refl, [], ◌∷◌, All, none, some, ◌⊎◌,
  List, Bool-cases, inl, inr, ap, sym, ◌∙◌, append-nil, arith,
}
use blobs.Base.Bytes.{Bytes}
use blobs.Errors.{Result, ok, err, not_found}
use blobs.Object.{ChunkEntry, BlobEntry}
use blobs.Index.Table.{lookup}
use blobs.Index.Memory.{commit, MemTx, mem_ops, mem_IsTx}
use blobs.Index.Tx.{Tx}
use blobs.Index.Keys.{blob, key_bytes}
use blobs.Index.Commit.WellFormed.{IsIndex}
use blobs.Index.Records.{get_ref, get_blob, get_chunk, get_chunks}
use blobs.Index.Tests.{
  Doc, of_ref, of_blob, of_chunk, doc_json, doc_IsJson, ref_tx, ref_tx-IsIndex, a_ref, a_blob,
  a_chunk, name,
}
use blobs.Store.Handle.{Store, begin_op, begin_ns_op, verify, verify_refs, verify_chunks}
use blobs.Store.Handle.Verified.{IsListed, Readable, verify_lem}
use blobs.Store.Recovery.{replay_wal, replay_entry}
use blobs.Store.Recovery.Blobs.{KeepsCommitted}
use blobs.Store.Recovery.Entry.{Recovers, replay_entry-Recovers}
use blobs.Store.Recovery.Logs.{IsAppended, IsLog, HasLogged, replay_wal-HasLogged}
use blobs.Volume.Engine.{Engine}
use blobs.Volume.Scan.{list_segment_ids}
use blobs.Volume.Files.{read_file}
use blobs.Volume.Wal.{WalEntry, encode_wal_entry}
use blobs.Volume.Wal.Torn.{Logged}

abbrev logged : Engine
logged = record {
  files = (1, []) ∷ [];
  wals = (1, encode_wal_entry (49 ∷ []) (a_chunk ∷ [])) ∷ [];
  dirty = true;
  active = none;
  next_seq = 2;
  ns_id = name;
  page_size = 128;
  chunk_size = 1024;
  max_segment_size = 4096;
  cipher = none;
}

abbrev a_record : Logged
a_record = record { blob_id = 49 ∷ []; chunks = a_chunk ∷ [] }

abbrev logs : ℕ → List Logged
logs seq = if 1 == seq then a_record ∷ [] else []

a_record-IsAppended : IsAppended a_record
a_record-IsAppended = (
  (
    omega arith,
    omega arith,
    (
      record {
        id_fits = omega arith;
        segment_fits = omega arith;
        offset_fits = omega arith;
        len_fits = omega arith;
      },
      tt,
    ),
  ),
  (omega arith, tt),
  (((omega arith, tt), omega arith, omega arith), tt),
)

logged-IsLog : (seq : ℕ) → IsLog (read_file seq logged.wals) (logs seq)
unfolding read_file
logged-IsLog seq = elim (Bool-cases (1 == seq)) [
  | inl e ↦
      rw e
        (inr ([], ap some (sym (append-nil _ ∙ append-nil _)), inl refl, (a_record-IsAppended, tt)))
  | inr e ↦ rw e (inl (refl, refl))
]

replay_wal-HasLogged_example :
    (s' : MemTx Doc) × (replay_wal mem_ops doc_json logged ref_tx ≡ (s', ok tt))
    × IsIndex mem_IsTx doc_IsJson s'
    × KeepsCommitted mem_IsTx doc_IsJson ref_tx s'
    × All (λ seq. HasLogged mem_IsTx doc_IsJson s' (logs seq)) (list_segment_ids logged)
replay_wal-HasLogged_example =
    replay_wal-HasLogged mem_IsTx doc_IsJson logged logs ref_tx (omega arith) logged-IsLog
      ref_tx-IsIndex

-- A backend with one reference, one blob and one chunk.
abbrev read_one : Bytes → Unit {0} → Result Doc
read_one [] s = err (not_found [] [])
read_one (c ∷ k) s =
    if c == b'r'
    then ok (of_ref a_ref)
    else (if c == b'b' then ok (of_blob a_blob) else ok (of_chunk a_chunk))

abbrev one_of_each : Tx (Unit {0}) Doc
one_of_each = record { get = read_one; put = λ k v s. ok s; delete = λ k s. ok s }

abbrev opened : Store (Unit {0}) ℕ
opened = record { is_closed = false; engines = (name, 7) ∷ []; index = tt }

abbrev load_zeros : ℕ → ChunkEntry → Result Bytes
load_zeros eng c = ok (0 ∷ [])

opened_guard : begin_ns_op name opened ≡ ok 7
unfolding begin_ns_op begin_op lookup
opened_guard = rw (bytes_eq_refl name) refl

listed : All (IsListed one_of_each doc_json load_zeros name tt) (a_ref ∷ [])
unfolding get_ref key_bytes
listed = ((omega arith, refl), tt)

clean : verify one_of_each doc_json load_zeros name (a_ref ∷ []) opened ≡ ok tt
unfolding verify verify_refs verify_chunks get_blob get_chunks get_chunk key_bytes
clean = rw (opened_guard, verify) refl

verify_lem_example : All (Readable one_of_each doc_json load_zeros name 7 opened) (a_ref ∷ [])
verify_lem_example =
    verify_lem one_of_each doc_json load_zeros name 7 opened (a_ref ∷ []) opened_guard listed clean

abbrev entry : WalEntry
entry = record { blob_id = 49 ∷ []; chunks = a_chunk ∷ [] }

replay_entry-Recovers_example :
    (s' : MemTx Doc) × (replay_entry mem_ops doc_json entry ref_tx ≡ (s', ok tt))
    × IsIndex mem_IsTx doc_IsJson s'
    × (((b : BlobEntry) × (lookup (key_bytes (blob (49 ∷ []))) (commit ref_tx) ≡ some (of_blob b))
          × (s' ≡ ref_tx))
        ⊎ ((lookup (key_bytes (blob (49 ∷ []))) (commit ref_tx) ≡ none)
            × Recovers mem_IsTx doc_IsJson entry ref_tx s'))
replay_entry-Recovers_example =
    replay_entry-Recovers mem_IsTx doc_IsJson entry ref_tx ref_tx-IsIndex (refl, tt)
