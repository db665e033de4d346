-- ===== src/Store/Recovery/Entry.antt =====
-- What the replay of one entry of a write-ahead log makes of the index.
use mathlib.Core.List.{Memᴰ}
use mathlib.Core.List.Memᴰ
use blobs.Base.{
  ℕ, ◌≡◌, ◌≢◌, refl, sym, ap, subst, ◌∙◌, inl, inr, List, [], ◌∷◌, none, some, map, All, arith, ◌⊎◌,
  Bool-cases, bytes_eq, bytes_eq_refl, bytes_eq_sound,
}
use blobs.Base.Bytes.{Bytes}
use blobs.Base.Int.{pos}
use blobs.Errors.{ok}
use blobs.Object.{BlobEntry, ChunkEntry}
use blobs.Index.Tx.{Tx, IsTx}
use blobs.Index.Json.{Json, IsJson}
use blobs.Index.Keys.{Key, blob, chunk, key_bytes, key_bytes-injective, IsKey}
use blobs.Index.Commit.WellFormed.{IsIndex, stored_here, stored_other}
use blobs.Store.Reader.{total_len}
use blobs.Store.Recovery.{presumed, recovered, replay_entry}
use blobs.Store.Recovery.Blobs.{
  stored_all, stored_entry, recovered_blob, replay_entry-present, replay_entry-missing,
  stored_entry-IsIndex,
}
use blobs.Volume.Wal.{WalEntry}
use blobs.Volume.Wal.Order.{Numbered}

All-at :
    (P : ChunkEntry → Type 0) (c : ChunkEntry) (cs : List ChunkEntry) → All P cs → Memᴰ c cs → P c
All-at P c [] a m = absurd (Memᴰ.not-nil m)
All-at P c (d ∷ cs) a (Memᴰ.head e) = subst P (sym e) a.0
All-at P c (d ∷ cs) a (Memᴰ.tail m) = All-at P c cs a.1 m

module _ {S V : Type 0} {tx : Tx S V} {json : Json V} (t : IsTx tx) (j : IsJson json) where
  -- The index has for the chunk what the log says of one of these, with the count one.
  abbrev pub AsLogged : S → List ChunkEntry → Bytes → Type 0
  AsLogged s cs id =
      (c : ChunkEntry) × Memᴰ c cs
      × (c.chunk_id ≡ id)
      × (t.view (key_bytes (chunk id)) s ≡ some (j.chunk_doc (record c { ref_count = pos 1 })))

  -- The record of a chunk after the loop: of the last that has its key, or the old one.
  stored_all_view :
      (id : Bytes) (cs : List ChunkEntry) (s : S)
      → AsLogged (stored_all t j cs s) cs id
        ⊎ ((t.view (key_bytes (chunk id)) (stored_all t j cs s) ≡ t.view (key_bytes (chunk id)) s)
            × All (λ (c : ChunkEntry). c.chunk_id ≢ id) cs)
  unfolding presumed
  stored_all_view id [] s = inr (refl, tt)
  stored_all_view id (c ∷ cs) s =
      let k = key_bytes (chunk c.chunk_id) in
      let d = j.chunk_doc (presumed c) in
      let seen = t.view-stored (key_bytes (chunk id)) k d s in
      elim (stored_all_view id cs (t.stored k d s)) [
        | inl (x, m, own, h) ↦ inl (x, Memᴰ.tail m, own, h)
        | inr (same, others) ↦ elim (Bool-cases (bytes_eq k (key_bytes (chunk id)))) [
          | inl e ↦
              let own =
                key_bytes-injective (chunk c.chunk_id) (chunk id) tt tt (bytes_eq_sound _ _ e) in
              inl (c, Memᴰ.head refl, ground (arith, own), same ∙ seen ∙ rw e refl)
          | inr e ↦ inr (
            same ∙ seen ∙ rw e refl,
            (λ own. absurd (ground (arith, e, own, bytes_eq_refl k)), others),
          )
        ]
      ]

  AllLogged :
      (s : S) (all cs : List ChunkEntry)
      → ((c : ChunkEntry) → Memᴰ c cs → AsLogged s all c.chunk_id)
      → All (λ (c : ChunkEntry). AsLogged s all c.chunk_id) cs
  AllLogged s all [] h = tt
  AllLogged s all (c ∷ cs) h = (h c (Memᴰ.head refl), AllLogged s all cs (λ x m. h x (Memᴰ.tail m)))

  stored_all_frame :
      (k : Key) (cs : List ChunkEntry) (s : S)
      → IsKey k
      → All (λ (c : ChunkEntry). chunk c.chunk_id ≢ k) cs
      → t.view (key_bytes k) (stored_all t j cs s) ≡ t.view (key_bytes k) s
  stored_all_frame k [] s v other = refl
  stored_all_frame k (c ∷ cs) s v other =
      stored_all_frame k cs _ v other.1
      ∙ stored_other t j (chunk c.chunk_id) k (j.chunk_doc (presumed c)) s tt v other.0

  -- The blob and the chunks of the entry are registered, and nothing else has changed.
  abbrev pub Recovers : WalEntry → S → S → Type 0
  Recovers e s s' =
      (t.view (key_bytes (blob e.blob_id)) s'
        ≡ some (
            j.blob_doc (record {
              blob_id = e.blob_id;
              chunk_ids = map (λ c. c.chunk_id) e.chunks;
              total_size = total_len e.chunks;
              ref_count = pos 1;
              created_at = 0;
            })))
      × All (λ (c : ChunkEntry). AsLogged s' e.chunks c.chunk_id) e.chunks
      × ((k : Key)
          → IsKey k
          → blob e.blob_id ≢ k
          → All (λ (c : ChunkEntry). chunk c.chunk_id ≢ k) e.chunks
          → t.view (key_bytes k) s' ≡ t.view (key_bytes k) s)

  stored_entry-Recovers : (e : WalEntry) (s : S) → Recovers e s (stored_entry t j e s)
  unfolding recovered
  stored_entry-Recovers e s =
      let k = blob e.blob_id in
      let d = j.blob_doc (recovered_blob t j e) in
      let keeps = λ (id : Bytes).
        stored_other t j k (chunk id) d (stored_all t j e.chunks s) tt tt (λ u. cc) in
      (
        stored_here t j k d (stored_all t j e.chunks s)
            ∙ ap
                (λ (n : ℕ).
                  some (j.blob_doc (recovered e.blob_id (map (λ c. c.chunk_id) e.chunks) n)))
                (omega arith),
        AllLogged (stored_entry t j e s) e.chunks e.chunks λ c m.
            elim (stored_all_view c.chunk_id e.chunks s) [
              | inl (x, mem, own, h) ↦ (x, mem, own, keeps c.chunk_id ∙ h)
              | inr (same, others) ↦ absurd (All-at _ c e.chunks others m refl)
            ],
        λ q v other rest.
            stored_other t j k q d (stored_all t j e.chunks s) tt v other
            ∙ stored_all_frame q e.chunks s v rest,
      )

  -- An entry of the log in a well-formed index. If the index has the blob, nothing is written. If
  -- not, the blob is registered with its chunks in the order of the log, the sum of their lengths
  -- and the count one, each of its chunks with the count one and all else as the log has it, and no
  -- other record is changed. Either way it succeeds and leaves a well-formed index. The chunks of
  -- the entry are numbered from 0, as ParseWAL numbers them.
  pub replay_entry-Recovers :
      (e : WalEntry) (s : S)
      → IsIndex t j s
      → Numbered 0 e.chunks
      → (s' : S) × (replay_entry tx json e s ≡ (s', ok tt))
        × IsIndex t j s'
        × (((b : BlobEntry) × (t.view (key_bytes (blob e.blob_id)) s ≡ some (j.blob_doc b))
              × (s' ≡ s))
            ⊎ ((t.view (key_bytes (blob e.blob_id)) s ≡ none) × Recovers e s s'))
  replay_entry-Recovers e s w order = elim (w (blob e.blob_id) tt) [
    | inr (b, h) ↦ (s, replay_entry-present t j e b s h, w, inl (b, h, refl))
    | inl h ↦ (
      stored_entry t j e s,
      replay_entry-missing t j e s h order,
      stored_entry-IsIndex t j e s w,
      inr (h, stored_entry-Recovers e s),
    )
  ]
