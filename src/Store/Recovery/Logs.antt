-- ===== src/Store/Recovery/Logs.antt =====
-- The replay of every write-ahead log of a namespace.
use blobs.Base.{
  ℕ, ◌-◌, ◌<◌, ◌^◌, ◌≡◌, ◌⊎◌, inl, inr, refl, ap, subst, ◌∙◌, List, [], ◌∷◌, ◌++◌, Option, none,
  some, map, All,
}
use blobs.Base.Bytes.{Bytes}
use blobs.Errors.{Result, ok}
use blobs.Object.{ChunkEntry}
use blobs.Index.Tx.{Tx, IsTx}
use blobs.Index.Json.{Json, IsJson}
use blobs.Index.Commit.WellFormed.{IsIndex}
use blobs.Store.Recovery.{and_then, replay_segments, replay_wal}
use blobs.Store.Recovery.Blobs.{HasBlob, KeepsCommitted, replay_entries_lem}
use blobs.Volume.Engine.{Engine}
use blobs.Volume.Files.{read_file}
use blobs.Volume.Scan.{list_segment_ids}
use blobs.Volume.Wal.{WalEntry, parse_wal}
use blobs.Volume.Wal.Torn.{Logged, Fits, IsTorn, log_bytes, replayed, parse_wal_lem}
use blobs.Volume.Header.{page_header_size}
use blobs.Volume.Wal.Order.{parse_wal-Numbered}

-- The log of a segment, as ParseWAL reads it.
abbrev pub log_of : Engine → ℕ → List WalEntry
log_of eng seq = parse_wal (read_file seq eng.wals) eng.ns_id eng.page_size

-- What appendWAL was given: identifiers in ASCII, and places and lengths that an int64 holds.
abbrev pub IsAppended : Logged → Type 0
IsAppended l =
    Fits l
    × All (λ (b : ℕ). b < 128) l.blob_id
    × All
        (λ (c : ChunkEntry).
          All (λ (b : ℕ). b < 128) c.chunk_id × (c.page_offset < 2 ^ 63) × (c.len < 2 ^ 63))
        l.chunks

-- A log file as appendWAL and a crash leave it: it is missing, or it is whole records and at its
-- end at most a proper part of one.
abbrev pub IsLog : Option Bytes → List Logged → Type 0
IsLog file ls =
    ((file ≡ none) × (ls ≡ []))
    ⊎ ((tail : Bytes) × (file ≡ some (log_bytes ls ++ tail)) × IsTorn tail × All IsAppended ls)

AllFits : (ls : List Logged) → All IsAppended ls → All Fits ls
AllFits [] h = tt
AllFits (l ∷ ls) h = (h.0.0, AllFits ls h.1)

parse_log :
    (file : Option Bytes) (ls : List Logged) (ns_id : Bytes) (page_size : ℕ)
    → page_header_size < page_size
    → IsLog file ls
    → parse_wal file ns_id page_size ≡ map (replayed ns_id (page_size - page_header_size)) ls
unfolding parse_wal
parse_log file ls ns_id page_size room (inl (e, n)) = rw (e, n)
parse_log file ls ns_id page_size room (inr (tail, e, torn, h)) =
    rw e (parse_wal_lem ns_id page_size ls tail room (AllFits ls h) torn)

module _ {S V : Type 0} {tx : Tx S V} {json : Json V} (t : IsTx tx) (j : IsJson json) where
  -- The index has every blob of the entries.
  abbrev pub HasBlobs : S → List WalEntry → Type 0
  HasBlobs s es = All (λ e. HasBlob t j s e.blob_id) es

  HasBlobs-kept :
      (es : List WalEntry) (s s' : S) → KeepsCommitted t j s s' → HasBlobs s es → HasBlobs s' es
  HasBlobs-kept [] s s' kept h = tt
  HasBlobs-kept (e ∷ es) s s' kept ((b, here), h) =
      ((b, kept.1 e.blob_id b here), HasBlobs-kept es s s' kept h)

  replay_segments_lem :
      (eng : Engine) (seqs : List ℕ) (s : S)
      → IsIndex t j s
      → (s' : S) × (replay_segments tx json eng seqs s ≡ (s', ok tt))
        × IsIndex t j s'
        × KeepsCommitted t j s s'
        × All (λ seq. HasBlobs s' (log_of eng seq)) seqs
  unfolding replay_segments and_then
  replay_segments_lem eng [] s w = (s, refl, w, (λ n k v. refl, λ id b h. h), tt)
  replay_segments_lem eng (seq ∷ seqs) s w =
      let (s₁, first, w₁, kept₁, here) =
        replay_entries_lem t j (log_of eng seq) s w
          (parse_wal-Numbered _ eng.ns_id eng.page_size) in
      let (s₂, rest, w₂, kept₂, all) = replay_segments_lem eng seqs s₁ w₁ in
      (
        s₂,
        ap (λ (r : S × Result (Unit {0})). and_then r (replay_segments tx json eng seqs)) first
            ∙ rest,
        w₂,
        (λ n k v. kept₂.0 n k v ∙ kept₁.0 n k v, λ id b h. kept₂.1 id b (kept₁.1 id b h)),
        (HasBlobs-kept (log_of eng seq) s₁ s₂ kept₂ here, all),
      )

  pub replay_wal_lem :
      (eng : Engine) (s : S)
      → IsIndex t j s
      → (s' : S) × (replay_wal tx json eng s ≡ (s', ok tt))
        × IsIndex t j s'
        × KeepsCommitted t j s s'
        × All (λ seq. HasBlobs s' (log_of eng seq)) (list_segment_ids eng)
  unfolding replay_wal
  replay_wal_lem eng s w = replay_segments_lem eng (list_segment_ids eng) s w

  -- The index has every blob of the records.
  abbrev pub HasLogged : S → List Logged → Type 0
  HasLogged s ls = All (λ l. HasBlob t j s l.blob_id) ls

  HasLogged-replayed :
      (s : S) (ns_id : Bytes) (capacity : ℕ) (ls : List Logged)
      → HasBlobs s (map (replayed ns_id capacity) ls)
      → HasLogged s ls
  HasLogged-replayed s ns_id capacity [] h = tt
  HasLogged-replayed s ns_id capacity (l ∷ ls) h = (h.0, HasLogged-replayed s ns_id capacity ls h.1)

  logs-HasLogged :
      (eng : Engine) (logs : ℕ → List Logged) (s : S) (seqs : List ℕ)
      → page_header_size < eng.page_size
      → ((seq : ℕ) → IsLog (read_file seq eng.wals) (logs seq))
      → All (λ seq. HasBlobs s (log_of eng seq)) seqs
      → All (λ seq. HasLogged s (logs seq)) seqs
  logs-HasLogged eng logs s [] room v h = tt
  logs-HasLogged eng logs s (seq ∷ seqs) room v h = (
    HasLogged-replayed s eng.ns_id (eng.page_size - page_header_size) (logs seq) (
        subst (HasBlobs s)
          (parse_log (read_file seq eng.wals) (logs seq) eng.ns_id eng.page_size room (v seq)) h.0),
    logs-HasLogged eng logs s seqs room v h.1,
  )

  -- The replay of the logs of a namespace into a well-formed index, where each log file is missing
  -- or is what appendWAL wrote, cut off at most within its last record, succeeds. The index is
  -- well-formed after it, it has a record of every blob that was logged whole for a segment of the
  -- namespace, and every reference and every blob record that was there is as it was. The page
  -- size is above the header's.
  pub replay_wal-HasLogged :
      (eng : Engine) (logs : ℕ → List Logged) (s : S)
      → page_header_size < eng.page_size
      → ((seq : ℕ) → IsLog (read_file seq eng.wals) (logs seq))
      → IsIndex t j s
      → (s' : S) × (replay_wal tx json eng s ≡ (s', ok tt))
        × IsIndex t j s'
        × KeepsCommitted t j s s'
        × All (λ seq. HasLogged s' (logs seq)) (list_segment_ids eng)
  replay_wal-HasLogged eng logs s room v w =
      let (s', run, w', kept, all) = replay_wal_lem eng s w in
      (s', run, w', kept, logs-HasLogged eng logs s' (list_segment_ids eng) room v all)
