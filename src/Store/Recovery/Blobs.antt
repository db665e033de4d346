-- ===== src/Store/Recovery/Blobs.antt =====
-- What a replay of the write-ahead logs leaves in the index.
use blobs.Base.{
  ℕ, suc, ◌+◌, ◌≡◌, ◌≢◌, refl, sym, ap, subst, ◌∙◌, inl, inr, List, [], ◌∷◌, ◌++◌, none, some, map,
  length, replicate, All, append_assoc, length-append, arith,
}
use blobs.Base.Bytes.{Bytes}
use blobs.Errors.{Result, ok, err, not_found, is_not_found}
use blobs.Object.{BlobEntry, ChunkEntry}
use blobs.Index.Tx.{Tx, IsTx}
use blobs.Index.Json.{Json, IsJson}
use blobs.Index.Keys.{Key, ref, blob, chunk, key_bytes, IsKey}
use blobs.Index.Commit.Steps.{save_stores}
use blobs.Index.Commit.WellFormed.{IsIndex, stored_here, stored_other, stored-IsIndex}
use blobs.Index.Records.{get_blob, put_blob, put_chunk}
use blobs.Store.Reader.{total_len}
use blobs.Store.Recovery.{
  set_at, presumed, recovered, continue_with, and_then, replay_chunks, register_blob, replay_entry,
  replay_entries,
}
use blobs.Volume.Wal.{WalEntry}
use blobs.Volume.Wal.Order.{Numbered}

set_at-append :
    (done : List Bytes) (x id : Bytes) (rest : List Bytes)
    → set_at (length done) id (done ++ (x ∷ rest)) ≡ some (done ++ (id ∷ rest))
unfolding set_at
set_at-append [] x id rest = refl
set_at-append (y ∷ done) x id rest = rw (set_at-append done x id rest) refl

module _ {S V : Type 0} {tx : Tx S V} {json : Json V} (t : IsTx tx) (j : IsJson json) where
  -- The index after the chunks of an entry.
  abbrev pub stored_all : List ChunkEntry → S → S
  stored_all [] s = s
  stored_all (c ∷ cs) s =
      stored_all cs (t.stored (key_bytes (chunk c.chunk_id)) (j.chunk_doc (presumed c)) s)

  replay_chunks_stores :
      (done : List Bytes) (cs : List ChunkEntry) (total : ℕ) (s : S)
      → Numbered (length done) cs
      → replay_chunks tx json cs total (done ++ replicate (length cs) []) s
        ≡ (stored_all cs s, ok (total + total_len cs, done ++ map (λ c. c.chunk_id) cs))
  unfolding replay_chunks put_chunk continue_with presumed
  replay_chunks_stores done [] total s h = ap (λ (n : ℕ). (s, ok (n, done ++ []))) (omega arith)
  replay_chunks_stores done (c ∷ cs) total s (here, later) =
      let next = done ++ (c.chunk_id ∷ []) in
      let stored = t.stored (key_bytes (chunk c.chunk_id)) (j.chunk_doc (presumed c)) s in
      let ids = map (λ (d : ChunkEntry). d.chunk_id) cs in
      let at : suc (length done) ≡ length next =
        omega (arith, length-append done (c.chunk_id ∷ [])) in
      let ih =
        replay_chunks_stores next cs (total + c.len) stored
          (subst (λ (n : ℕ). Numbered n cs) at later) in
      let slots = append_assoc done (c.chunk_id ∷ []) (replicate (length cs) []) in
      let slot =
        ap (λ (n : ℕ). set_at n c.chunk_id (done ++ ([] ∷ replicate (length cs) []))) here
        ∙ set_at-append done [] c.chunk_id (replicate (length cs) []) in
      let sum : total + c.len + total_len cs ≡ total + (c.len + total_len cs) = omega arith in
      rw
        (
          save_stores tx json t (chunk c.chunk_id) s json.marshal_chunk (presumed c)
              (j.chunk_doc (presumed c)) (j.marshals_chunk (presumed c)),
          slot,
        )
        (ap (λ (l : List Bytes). replay_chunks tx json cs (total + c.len) l stored) (sym slots)
          ∙ ih
          ∙ ap (λ (n : ℕ). (stored_all cs stored, ok (n, next ++ ids))) sum
          ∙ ap (λ (l : List Bytes). (stored_all cs stored, ok (total + (c.len + total_len cs), l)))
              (append_assoc done (c.chunk_id ∷ []) ids))

  stored_all_other :
      (k : Key) (cs : List ChunkEntry) (s : S)
      → IsKey k
      → ((id : Bytes) → chunk id ≢ k)
      → t.view (key_bytes k) (stored_all cs s) ≡ t.view (key_bytes k) s
  stored_all_other k [] s v other = refl
  stored_all_other k (c ∷ cs) s v other =
      stored_all_other k cs _ v other
      ∙ stored_other t j (chunk c.chunk_id) k (j.chunk_doc (presumed c)) s tt v (other c.chunk_id)

  stored_all-IsIndex :
      (cs : List ChunkEntry) (s : S) → IsIndex t j s → IsIndex t j (stored_all cs s)
  unfolding presumed
  stored_all-IsIndex [] s w = w
  stored_all-IsIndex (c ∷ cs) s w = stored_all-IsIndex cs _ (
      stored-IsIndex t j (chunk c.chunk_id) (j.chunk_doc (presumed c)) s tt
        (inr (presumed c, refl, omega arith)) w)

  -- What the record of a replayed entry's blob is.
  abbrev pub recovered_blob : WalEntry → BlobEntry
  recovered_blob e = recovered e.blob_id (map (λ c. c.chunk_id) e.chunks) (0 + total_len e.chunks)

  abbrev pub stored_entry : WalEntry → S → S
  stored_entry e s =
      t.stored (key_bytes (blob e.blob_id)) (j.blob_doc (recovered_blob e)) (stored_all e.chunks s)

  pub get_blob-some :
      (id : Bytes) (b : BlobEntry) (s : S)
      → t.view (key_bytes (blob id)) s ≡ some (j.blob_doc b)
      → get_blob tx json id s ≡ ok b
  unfolding get_blob
  get_blob-some id b s h =
      rw (t.get_some (key_bytes (blob id)) s (j.blob_doc b) h) (j.unmarshals_blob b)

  get_blob-none :
      (id : Bytes) (s : S)
      → t.view (key_bytes (blob id)) s ≡ none
      → get_blob tx json id s ≡ err (not_found [] [])
  unfolding get_blob
  get_blob-none id s h = rw (t.get_none (key_bytes (blob id)) s h) refl

  pub replay_entry-present :
      (e : WalEntry) (b : BlobEntry) (s : S)
      → t.view (key_bytes (blob e.blob_id)) s ≡ some (j.blob_doc b)
      → replay_entry tx json e s ≡ (s, ok tt)
  unfolding replay_entry
  replay_entry-present e b s h = rw (get_blob-some e.blob_id b s h, replay_entry) refl

  register_blob_stores :
      (e : WalEntry) (s : S)
      → register_blob tx json e.blob_id
          (s, ok (0 + total_len e.chunks, map (λ c. c.chunk_id) e.chunks))
        ≡ (t.stored (key_bytes (blob e.blob_id)) (j.blob_doc (recovered_blob e)) s, ok tt)
  unfolding register_blob put_blob continue_with recovered
  register_blob_stores e s =
      rw
        (save_stores tx json t (blob e.blob_id) s json.marshal_blob (recovered_blob e)
          (j.blob_doc (recovered_blob e)) (j.marshals_blob (recovered_blob e)))
        refl

  pub replay_entry-missing :
      (e : WalEntry) (s : S)
      → t.view (key_bytes (blob e.blob_id)) s ≡ none
      → Numbered 0 e.chunks
      → replay_entry tx json e s ≡ (stored_entry e s, ok tt)
  unfolding replay_entry is_not_found
  replay_entry-missing e s h order =
      rw (get_blob-none e.blob_id s h, replay_entry)
        (ap (register_blob tx json e.blob_id) (replay_chunks_stores [] e.chunks 0 s order)
          ∙ register_blob_stores e (stored_all e.chunks s))

  pub stored_entry-IsIndex : (e : WalEntry) (s : S) → IsIndex t j s → IsIndex t j (stored_entry e s)
  stored_entry-IsIndex e s w =
      stored-IsIndex t j (blob e.blob_id) (j.blob_doc (recovered_blob e)) (stored_all e.chunks s) tt
        (inr (recovered_blob e, refl)) (stored_all-IsIndex e.chunks s w)

  -- The index has a record of the blob.
  abbrev pub HasBlob : S → Bytes → Type 0
  HasBlob s id = (b : BlobEntry) × (t.view (key_bytes (blob id)) s ≡ some (j.blob_doc b))

  -- What a replay may not change: a reference, and a blob record that is there.
  abbrev pub KeepsCommitted : S → S → Type 0
  KeepsCommitted s s' =
      ((ns_id key : Bytes)
        → IsKey (ref ns_id key)
        → t.view (key_bytes (ref ns_id key)) s' ≡ t.view (key_bytes (ref ns_id key)) s)
      × ((id : Bytes) (b : BlobEntry)
          → t.view (key_bytes (blob id)) s ≡ some (j.blob_doc b)
          → t.view (key_bytes (blob id)) s' ≡ some (j.blob_doc b))

  stored_entry-KeepsCommitted :
      (e : WalEntry) (s : S)
      → t.view (key_bytes (blob e.blob_id)) s ≡ none
      → KeepsCommitted s (stored_entry e s)
  stored_entry-KeepsCommitted e s missing = (
    λ ns_id key v.
        stored_other t j (blob e.blob_id) (ref ns_id key) (j.blob_doc (recovered_blob e))
          (stored_all e.chunks s) tt v (λ same. absurd (cc))
        ∙ stored_all_other (ref ns_id key) e.chunks s v (λ id same. absurd (cc)),
    λ id b h.
        stored_other t j (blob e.blob_id) (blob id) (j.blob_doc (recovered_blob e))
          (stored_all e.chunks s) tt tt (λ same. absurd (cc))
        ∙ stored_all_other (blob id) e.chunks s tt (λ i same. absurd (cc))
        ∙ h,
  )

  -- One entry of the log, whether or not the index has its blob.
  replay_entry_lem :
      (e : WalEntry) (s : S)
      → IsIndex t j s
      → Numbered 0 e.chunks
      → (s' : S) × (replay_entry tx json e s ≡ (s', ok tt))
        × IsIndex t j s'
        × KeepsCommitted s s'
        × HasBlob s' e.blob_id
  replay_entry_lem e s w order = elim (w (blob e.blob_id) tt) [
    | inr (b, h) ↦ (s, replay_entry-present e b s h, w, (λ ns_id key v. refl, λ id c k. k), (b, h))
    | inl h ↦ (
      stored_entry e s,
      replay_entry-missing e s h order,
      stored_entry-IsIndex e s w,
      stored_entry-KeepsCommitted e s h,
      (
        recovered_blob e,
        stored_here t j (blob e.blob_id) (j.blob_doc (recovered_blob e)) (stored_all e.chunks s),
      ),
    )
  ]

  -- The replay of a log into a well-formed index succeeds and leaves a well-formed index, in which
  -- every blob of the log has a record; every reference, and every blob record that was there, is
  -- as it was.
  pub replay_entries_lem :
      (es : List WalEntry) (s : S)
      → IsIndex t j s
      → All (λ e. Numbered 0 e.chunks) es
      → (s' : S) × (replay_entries tx json es s ≡ (s', ok tt))
        × IsIndex t j s'
        × KeepsCommitted s s'
        × All (λ e. HasBlob s' e.blob_id) es
  unfolding replay_entries and_then
  replay_entries_lem [] s w order = (s, refl, w, (λ ns_id key v. refl, λ id b h. h), tt)
  replay_entries_lem (e ∷ es) s w order =
      let (s₁, first, w₁, kept₁, (b, here)) = replay_entry_lem e s w order.0 in
      let (s₂, rest, w₂, kept₂, all) = replay_entries_lem es s₁ w₁ order.1 in
      (
        s₂,
        ap (λ (r : S × Result (Unit {0})). and_then r (replay_entries tx json es)) first ∙ rest,
        w₂,
        (
          λ ns_id key v. kept₂.0 ns_id key v ∙ kept₁.0 ns_id key v,
          λ id c h. kept₂.1 id c (kept₁.1 id c h),
        ),
        ((b, kept₂.1 e.blob_id b here), all),
      )
