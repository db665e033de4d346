-- ===== src/Index/Commit/Put.antt =====
-- CommitPut and CommitDelete as wholes (index.go).
use blobs.Base.{
  ℕ, ◌≡◌, ◌≢◌, ◌⊎◌, refl, sym, subst, arith, Bool-cases, bytes_eq, bytes_eq_iff, ◌∙◌, inl, inr,
  Bool, true, false, List, [], ◌∷◌, All, Option, none, some, length, bytes_eq_refl,
}
use blobs.Base.Bytes.{Bytes}
use blobs.Base.Int.{pos, ◌+ℤ◌, ◌-ℤ◌}
use blobs.Errors.{ok}
use blobs.Object.{RefEntry, BlobEntry, ChunkEntry, NamespaceStats}
use blobs.Index.Tx.{Tx, IsTx}
use blobs.Index.Json.{Json, IsJson}
use blobs.Index.Keys.{ref, blob, chunk, stats, key_bytes, IsKey}
use blobs.Index.Commit.{
  Upserted, find, get_stats_tx, put_stats_tx, release_blob, upsert_blob, drop_old, empty_stats,
  commit_put, commit_delete, same_content, count_put,
}
use blobs.Index.Commit.Steps.{find-none, find-some, save_stores}
use blobs.Index.Commit.WellFormed.{
  IsIndex, stored-IsIndex, stored_other, stored_here, removed-IsIndex, removed_other,
}
use blobs.Index.Commit.Chunks.{
  Kept, KeptBlobs, Kept-refl, Kept-trans, Kept-store, Has, decrement_all-Kept, upsert_chunks-Grown,
}

module _ {S V : Type 0} {tx : Tx S V} {json : Json V} (t : IsTx tx) (j : IsJson json) where
  store_blob :
      (id : Bytes) (b : BlobEntry) (s : S)
      → IsIndex t j s
      → Kept t j s (t.stored (key_bytes (blob id)) (j.blob_doc b) s)
  store_blob id b s w = Kept-store t j (blob id) (j.blob_doc b) s tt (λ n k e. cc) (inr (b, refl)) w

  KeptBlobs-Kept : (s s' : S) → KeptBlobs t j s s' → Kept t j s s'
  KeptBlobs-Kept s s' k = (k.0, k.1)

  abbrev SameBlob : Bytes → S → S → Type 0
  SameBlob id s s' = t.view (key_bytes (blob id)) s' ≡ t.view (key_bytes (blob id)) s

  release_blob-Kept :
      (id : Bytes) (s : S)
      → IsIndex t j s
      → (ids : List Bytes) × (s' : S) × (release_blob tx json s id ≡ ok (ids, s'))
        × Kept t j s s'
        × ((q : Bytes) → id ≢ q → SameBlob q s s')
  unfolding release_blob
  release_blob-Kept id s w = elim (w (blob id) tt) [
    | inl e ↦ (
      [],
      s,
      rw (find-none tx json t (blob id) s json.unmarshal_blob e, release_blob),
      Kept-refl t j s w,
      λ q apart. refl,
    )
    | inr (b, e) ↦
        let b' : BlobEntry = record b { ref_count = b.ref_count -ℤ pos 1 } in
        (
          b.chunk_ids,
          t.stored (key_bytes (blob id)) (j.blob_doc b') s,
          rw (
            find-some tx json t (blob id) s json.unmarshal_blob (j.blob_doc b) b e
                (j.unmarshals_blob b),
            release_blob,
            save_stores tx json t (blob id) s json.marshal_blob b' (j.blob_doc b')
                (j.marshals_blob b'),
          ),
          store_blob id b' s w,
          λ q apart.
              stored_other t j (blob id) (blob q) (j.blob_doc b') s tt tt
                (λ e. apart (ground (arith, e))),
        )
  ]

  -- What CommitPut makes of the blob's record: the new one with the count 1, or the old one with
  -- its count raised.
  abbrev pub Counted : BlobEntry → S → S → Type 0
  Counted b s s' =
      ((t.view (key_bytes (blob b.blob_id)) s ≡ none)
        × (t.view (key_bytes (blob b.blob_id)) s'
            ≡ some (j.blob_doc (record b { ref_count = pos 1 }))))
      ⊎ ((o : BlobEntry) × (t.view (key_bytes (blob b.blob_id)) s ≡ some (j.blob_doc o))
          × (t.view (key_bytes (blob b.blob_id)) s'
              ≡ some (j.blob_doc (record o { ref_count = o.ref_count +ℤ pos 1 }))))

  Counted-frame :
      (b : BlobEntry) (s₀ s s' s'' : S)
      → SameBlob b.blob_id s₀ s
      → SameBlob b.blob_id s' s''
      → Counted b s s'
      → Counted b s₀ s''
  Counted-frame b s₀ s s' s'' x y (inl (e, h)) = inl (sym x ∙ e, y ∙ h)
  Counted-frame b s₀ s s' s'' x y (inr (o, e, h)) = inr (o, sym x ∙ e, y ∙ h)

  upsert_blob-Kept :
      (b : BlobEntry) (s : S)
      → IsIndex t j s
      → (s' : S) × (upsert_blob tx json s b ≡ ok s') × Kept t j s s' × Counted b s s'
  unfolding upsert_blob
  upsert_blob-Kept b s w = elim (w (blob b.blob_id) tt) [
    | inl e ↦
        let b' : BlobEntry = record b { ref_count = pos 1 } in
        (
          t.stored (key_bytes (blob b.blob_id)) (j.blob_doc b') s,
          rw (
            find-none tx json t (blob b.blob_id) s json.unmarshal_blob e,
            upsert_blob,
            save_stores tx json t (blob b.blob_id) s json.marshal_blob b' (j.blob_doc b')
                (j.marshals_blob b'),
          ),
          store_blob b.blob_id b' s w,
          inl (e, stored_here t j (blob b.blob_id) (j.blob_doc b') s),
        )
    | inr (o, e) ↦
        let b' : BlobEntry = record o { ref_count = o.ref_count +ℤ pos 1 } in
        (
          t.stored (key_bytes (blob b.blob_id)) (j.blob_doc b') s,
          rw (
            find-some tx json t (blob b.blob_id) s json.unmarshal_blob (j.blob_doc o) o e
                (j.unmarshals_blob o),
            upsert_blob,
            save_stores tx json t (blob b.blob_id) s json.marshal_blob b' (j.blob_doc b')
                (j.marshals_blob b'),
          ),
          store_blob b.blob_id b' s w,
          inr (o, e, stored_here t j (blob b.blob_id) (j.blob_doc b') s),
        )
  ]

  -- The blob is not the one that an overwrite drops.
  abbrev Apart : Option RefEntry → Bool → Bytes → Type 0
  Apart none same id = Unit {0}
  Apart (some old) true id = Unit {0}
  Apart (some old) false id = old.blob_id ≢ id

  same_content-Apart : (o : Option RefEntry) (r : RefEntry) → Apart o (same_content o r) r.blob_id
  same_content-Apart none r = tt
  same_content-Apart (some old) r = elim (Bool-cases (bytes_eq old.blob_id r.blob_id)) [
    | inl e ↦ rw (e, Apart) tt
    | inr e ↦
        rw (e, Apart) (λ same. absurd (ground (arith, e, bytes_eq_iff old.blob_id r.blob_id, same)))
  ]

  drop_old-Kept :
      (o : Option RefEntry) (same : Bool) (s : S)
      → IsIndex t j s
      → (m n : ℕ) × (s' : S) × (drop_old tx json s o same ≡ ok (m, n, s'))
        × Kept t j s s'
        × ((id : Bytes) → Apart o same id → SameBlob id s s')
  unfolding drop_old
  drop_old-Kept none same s w = (0, 0, s, refl, Kept-refl t j s w, λ id a. refl)
  drop_old-Kept (some old) true s w = (0, 0, s, refl, Kept-refl t j s w, λ id a. refl)
  drop_old-Kept (some old) false s w =
      let (ids, s₁, first, k₁, others) = release_blob-Kept old.blob_id s w in
      let (m, n, s₂, rest, k₂) = decrement_all-Kept t j ids 0 0 s₁ k₁.0 in
      (
        m,
        n,
        s₂,
        rw (first, rest),
        Kept-trans t j s s₁ s₂ k₁ (KeptBlobs-Kept s₁ s₂ k₂),
        λ id apart. k₂.2 id ∙ others id apart,
      )

  pub get_stats_tx-total :
      (id : Bytes) (s : S)
      → IsIndex t j s
      → (st : NamespaceStats) × (get_stats_tx tx json s id ≡ ok st) × (st.namespace_id ≡ id)
  unfolding get_stats_tx
  get_stats_tx-total id s w = elim (w (stats id) tt) [
    | inl e ↦ (
      empty_stats id,
      rw (find-none tx json t (stats id) s json.unmarshal_stats e, get_stats_tx),
      refl,
    )
    | inr (st, e, own) ↦ (
      st,
      rw (
        find-some tx json t (stats id) s json.unmarshal_stats (j.stats_doc st) st e
            (j.unmarshals_stats st),
        get_stats_tx,
      ),
      own,
    )
  ]

  find_ref-total :
      (n k : Bytes) (s : S)
      → IsKey (ref n k)
      → IsIndex t j s
      → (o : Option RefEntry) × (find tx json json.unmarshal_ref (ref n k) s ≡ ok o)
  find_ref-total n k s v w = elim (w (ref n k) v) [
    | inl e ↦ (none, find-none tx json t (ref n k) s json.unmarshal_ref e)
    | inr (r, e) ↦ (
      some r,
      find-some tx json t (ref n k) s json.unmarshal_ref (j.ref_doc r) r e (j.unmarshals_ref r),
    )
  ]

  put_stats_tx-Kept :
      (st : NamespaceStats) (s : S)
      → IsIndex t j s
      → (s' : S) × (put_stats_tx tx json s st ≡ ok s')
        × Kept t j s s'
        × ((q : Bytes) → t.view (key_bytes (chunk q)) s' ≡ t.view (key_bytes (chunk q)) s)
        × ((q : Bytes) → SameBlob q s s')
  unfolding put_stats_tx
  put_stats_tx-Kept st s w =
      let k = stats st.namespace_id in
      (
        t.stored (key_bytes k) (j.stats_doc st) s,
        save_stores tx json t k s json.marshal_stats st (j.stats_doc st) (j.marshals_stats st),
        Kept-store t j k (j.stats_doc st) s tt (λ n q e. cc) (inr (st, refl, refl)) w,
        λ q. stored_other t j k (chunk q) (j.stats_doc st) s tt tt (λ e. cc),
        λ q. stored_other t j k (blob q) (j.stats_doc st) s tt tt (λ e. cc),
      )

  keep-All :
      (ns_id : Bytes) (cs : List ChunkEntry) (s s' : S)
      → ((q : Bytes) → t.view (key_bytes (chunk q)) s' ≡ t.view (key_bytes (chunk q)) s)
      → All (λ (c : ChunkEntry). Has t j ns_id c.chunk_id s) cs
      → All (λ (c : ChunkEntry). Has t j ns_id c.chunk_id s') cs
  keep-All ns_id [] s s' same h = tt
  keep-All ns_id (c ∷ cs) s s' same h =
      ((h.0.0, same c.chunk_id ∙ h.0.1, h.0.2, h.0.3), keep-All ns_id cs s s' same h.1)

  -- All of the next theorem, and the blob's record.
  pub commit_put_records :
      (r : RefEntry) (b : BlobEntry) (cs : List ChunkEntry) (s : S)
      → IsKey (ref r.namespace_id r.key)
      → All (λ (c : ChunkEntry). c.namespace_id ≡ r.namespace_id) cs
      → IsIndex t j s
      → (reused : List ChunkEntry) × (s' : S) × (commit_put tx json r b cs s ≡ ok (reused, s'))
        × IsIndex t j s'
        × (t.view (key_bytes (ref r.namespace_id r.key)) s' ≡ some (j.ref_doc r))
        × ((n k : Bytes)
            → IsKey (ref n k)
            → ref r.namespace_id r.key ≢ ref n k
            → t.view (key_bytes (ref n k)) s' ≡ t.view (key_bytes (ref n k)) s)
        × All (λ (c : ChunkEntry). Has t j r.namespace_id c.chunk_id s') cs
        × (b.blob_id ≡ r.blob_id → Counted b s s')
  unfolding commit_put
  commit_put_records r b cs s v own w =
      let here = ref r.namespace_id r.key in
      let (old, found) = find_ref-total r.namespace_id r.key s v w in
      let same = same_content old r in
      let s₁ = t.stored (key_bytes here) (j.ref_doc r) s in
      let saved =
        save_stores tx json t here s json.marshal_ref r (j.ref_doc r) (j.marshals_ref r) in
      let w₁ = stored-IsIndex t j here (j.ref_doc r) s v (inr (r, refl)) w in
      let (s₂, upserted, k₂, counted_in) = upsert_blob-Kept b s₁ w₁ in
      let (dead_bytes, dead_chunks, s₃, dropped, k₃, apart) = drop_old-Kept old same s₂ k₂.0 in
      let start : Upserted S = record {
        state = s₃;
        reused = [];
        revived_bytes = 0;
        revived_chunks = 0;
        new_physical = 0;
      } in
      let (u, chunks, g, has) = upsert_chunks-Grown t j r.namespace_id cs start own k₃.0 in
      let (st, got, st_own) = get_stats_tx-total r.namespace_id u.state g.0.0 in
      let counted = count_put st old same b (length cs) in
      let final : NamespaceStats = record counted {
        bytes_physical = counted.bytes_physical +ℤ pos u.new_physical;
        dead_bytes = counted.dead_bytes +ℤ (pos dead_bytes -ℤ pos u.revived_bytes);
        dead_chunks = counted.dead_chunks +ℤ (pos dead_chunks -ℤ pos u.revived_chunks);
      } in
      let (s₄, put, k₄, chunks_same, blobs_same) = put_stats_tx-Kept final u.state g.0.0 in
      let kept = Kept-trans t j s₁ s₂ s₄ k₂ (
        Kept-trans t j s₂ s₃ s₄ k₃
          (Kept-trans t j s₃ u.state s₄ (KeptBlobs-Kept s₃ u.state g.0) k₄)) in
      (
        u.reused,
        s₄,
        rw (found, saved, upserted, dropped, chunks, got, put),
        kept.0,
        kept.1 r.namespace_id r.key v ∙ stored_here t j here (j.ref_doc r) s,
        λ n k vk other. kept.1 n k vk ∙ stored_other t j here (ref n k) (j.ref_doc r) s v vk other,
        keep-All r.namespace_id cs u.state s₄ chunks_same has,
        λ own_blob.
            Counted-frame b s s₁ s₂ s₄
              (stored_other t j here (blob b.blob_id) (j.ref_doc r) s v tt (λ e. cc))
              (blobs_same b.blob_id
                ∙ g.0.2 b.blob_id
                ∙ apart b.blob_id
                    (subst (Apart old same) (sym own_blob) (same_content-Apart old r)))
              counted_in,
      )

  -- CommitPut, of a reference and of chunks in one namespace whose name has no colon, succeeds on a
  -- well-formed index and leaves it well-formed. Then the key's reference is the new one, no other
  -- reference has changed, and each of the chunks has a record in that namespace with a reference
  -- count above 0.
  pub commit_put_lem :
      (r : RefEntry) (b : BlobEntry) (cs : List ChunkEntry) (s : S)
      → IsKey (ref r.namespace_id r.key)
      → All (λ (c : ChunkEntry). c.namespace_id ≡ r.namespace_id) cs
      → IsIndex t j s
      → (reused : List ChunkEntry) × (s' : S) × (commit_put tx json r b cs s ≡ ok (reused, s'))
        × IsIndex t j s'
        × (t.view (key_bytes (ref r.namespace_id r.key)) s' ≡ some (j.ref_doc r))
        × ((n k : Bytes)
            → IsKey (ref n k)
            → ref r.namespace_id r.key ≢ ref n k
            → t.view (key_bytes (ref n k)) s' ≡ t.view (key_bytes (ref n k)) s)
        × All (λ (c : ChunkEntry). Has t j r.namespace_id c.chunk_id s') cs
  commit_put_lem r b cs s v own w =
      let (reused, s', run, keep, here, others, has, counted) =
        commit_put_records r b cs s v own w in
      (reused, s', run, keep, here, others, has)

  -- CommitDelete of a present reference, in a namespace whose name has no colon, succeeds on a
  -- well-formed index and leaves it well-formed: the reference is gone, and no other has changed.
  pub commit_delete_lem :
      (n k : Bytes) (r : RefEntry) (s : S)
      → IsKey (ref n k)
      → IsIndex t j s
      → t.view (key_bytes (ref n k)) s ≡ some (j.ref_doc r)
      → (s' : S) × (commit_delete tx json n k s ≡ ok s')
        × IsIndex t j s'
        × (t.view (key_bytes (ref n k)) s' ≡ none)
        × ((m q : Bytes)
            → IsKey (ref m q)
            → ref n k ≢ ref m q
            → t.view (key_bytes (ref m q)) s' ≡ t.view (key_bytes (ref m q)) s)
  unfolding commit_delete
  commit_delete_lem n k r s v w h =
      let here = ref n k in
      let s₁ = t.removed (key_bytes here) s in
      let w₁ = removed-IsIndex t j here s w in
      let (ids, s₂, released, k₂, others) = release_blob-Kept r.blob_id s₁ w₁ in
      let (st, got, st_own) = get_stats_tx-total n s₂ k₂.0 in
      let (dead_bytes, dead_chunks, s₃, dropped, k₃) = decrement_all-Kept t j ids 0 0 s₂ k₂.0 in
      let final : NamespaceStats = record st {
        blob_count = st.blob_count -ℤ pos 1;
        bytes_stored = st.bytes_stored -ℤ pos r.metadata.size;
        chunk_count = st.chunk_count -ℤ pos r.metadata.chunk_count;
        dead_bytes = st.dead_bytes +ℤ pos dead_bytes;
        dead_chunks = st.dead_chunks +ℤ pos dead_chunks;
      } in
      let (s₄, put, k₄, chunks_same, blobs_same) = put_stats_tx-Kept final s₃ k₃.0 in
      let kept =
        Kept-trans t j s₁ s₂ s₄ k₂ (Kept-trans t j s₂ s₃ s₄ (KeptBlobs-Kept s₂ s₃ k₃) k₄) in
      (
        s₄,
        rw (
          t.get_some (key_bytes here) s (j.ref_doc r) h,
          j.unmarshals_ref r,
          t.delete_removes (key_bytes here) s,
          released,
          got,
          dropped,
          put,
        ),
        kept.0,
        kept.1 n k v
            ∙ rw (
              t.view-removed (key_bytes here) (key_bytes here) s,
              bytes_eq_refl (key_bytes here),
            ),
        λ m q vq other. kept.1 m q vq ∙ removed_other t j here (ref m q) s v vq other,
      )
