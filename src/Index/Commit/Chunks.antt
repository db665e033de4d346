-- ===== src/Index/Commit/Chunks.antt =====
-- The chunk loops of CommitPut and CommitDelete (index.go): they succeed and keep the invariant.
use blobs.Base.{
  ℕ, suc, ◌+◌, ◌≡◌, ◌≢◌, refl, ◌∙◌, ◌⊎◌, inl, inr, ◌&&◌, ltb, List, [], ◌∷◌, ◌++◌, All, none, some,
  if◌then◌else◌, arith, bytes_eq, bytes_eq_sound, Bool-cases,
}
use blobs.Base.Bytes.{Bytes}
use blobs.Base.Int.{pos, ◌≤ℤ◌, ◌+ℤ◌, ◌-ℤ◌, ltb_ℤ, -ℤ_parts, +ℤ_parts}
use blobs.Errors.{ok}
use blobs.Object.{ChunkEntry}
use blobs.Index.Tx.{Tx, IsTx}
use blobs.Index.Json.{Json, IsJson}
use blobs.Index.Keys.{Key, ref, blob, chunk, key_bytes, IsKey}
use blobs.Index.Commit.{
  Upserted, find, decrement_chunk_ref_tx, decrement_all, upsert_chunk, upsert_chunks, is_zero_ℤ,
}
use blobs.Index.Commit.Steps.{find-none, find-some, save_stores}
use blobs.Index.Commit.WellFormed.{
  IsIndex, Fits, Live, stored-IsIndex, stored_other, stored_keeps, stored_here,
}

module _ {S V : Type 0} {tx : Tx S V} {json : Json V} (t : IsTx tx) (j : IsJson json) where
  -- The invariant holds, and no reference has changed.
  abbrev pub Kept : S → S → Type 0
  Kept s s' =
      IsIndex t j s'
      × ((n k : Bytes)
          → IsKey (ref n k)
          → t.view (key_bytes (ref n k)) s' ≡ t.view (key_bytes (ref n k)) s)

  pub Kept-refl : (s : S) → IsIndex t j s → Kept s s
  Kept-refl s w = (w, λ n k v. refl)

  pub Kept-trans : (a b c : S) → Kept a b → Kept b c → Kept a c
  Kept-trans a b c x y = (y.0, λ n k v. y.1 n k v ∙ x.1 n k v)

  pub Kept-store :
      (q : Key) (v : V) (s : S)
      → IsKey q
      → ((n k : Bytes) → q ≢ ref n k)
      → Fits j q (some v)
      → IsIndex t j s
      → Kept s (t.stored (key_bytes q) v s)
  Kept-store q v s vq apart fits w = (
    stored-IsIndex t j q v s vq fits w,
    λ n k vk. stored_other t j q (ref n k) v s vq vk (apart n k),
  )

  pub find-chunk :
      (id : Bytes) (s : S)
      → IsIndex t j s
      → (find tx json json.unmarshal_chunk (chunk id) s ≡ ok none)
        ⊎ ((c : ChunkEntry) × (find tx json json.unmarshal_chunk (chunk id) s ≡ ok (some c))
            × (pos 0 ≤ℤ c.ref_count))
  find-chunk id s w = elim (w (chunk id) tt) [
    | inl e ↦ inl (find-none tx json t (chunk id) s json.unmarshal_chunk e)
    | inr (c, e, p) ↦ inr (
      c,
      find-some tx json t (chunk id) s json.unmarshal_chunk (j.chunk_doc c) c e
          (j.unmarshals_chunk c),
      p,
    )
  ]

  -- Also no record of a blob has changed.
  abbrev pub KeptBlobs : S → S → Type 0
  KeptBlobs s s' =
      IsIndex t j s'
      × ((n k : Bytes)
          → IsKey (ref n k)
          → t.view (key_bytes (ref n k)) s' ≡ t.view (key_bytes (ref n k)) s)
      × ((id : Bytes) → t.view (key_bytes (blob id)) s' ≡ t.view (key_bytes (blob id)) s)

  pub KeptBlobs-refl : (s : S) → IsIndex t j s → KeptBlobs s s
  KeptBlobs-refl s w = (w, λ n k v. refl, λ id. refl)

  pub KeptBlobs-trans : (a b c : S) → KeptBlobs a b → KeptBlobs b c → KeptBlobs a c
  KeptBlobs-trans a b c x y = (y.0, λ n k v. y.1 n k v ∙ x.1 n k v, λ id. y.2 id ∙ x.2 id)

  store_chunk :
      (id : Bytes) (c : ChunkEntry) (s : S)
      → pos 0 ≤ℤ c.ref_count
      → IsIndex t j s
      → KeptBlobs s (t.stored (key_bytes (chunk id)) (j.chunk_doc c) s)
  store_chunk id c s p w =
      let kept = Kept-store (chunk id) (j.chunk_doc c) s tt (λ n k e. cc) (inr (c, refl, p)) w in
      (kept.0, kept.1, λ q. stored_other t j (chunk id) (blob q) (j.chunk_doc c) s tt tt (λ e. cc))

  decrement_chunk_ref_tx-Kept :
      (id : Bytes) (s : S)
      → IsIndex t j s
      → (n : ℕ) × (s' : S) × (decrement_chunk_ref_tx tx json s id ≡ ok (n, s')) × KeptBlobs s s'
  unfolding decrement_chunk_ref_tx
  decrement_chunk_ref_tx-Kept id s w = elim (find-chunk id s w) [
    | inl e ↦ (0, s, rw (e, decrement_chunk_ref_tx), KeptBlobs-refl s w)
    | inr (c, e, p) ↦
        let live = ltb_ℤ (pos 0) c.ref_count in
        let c' : ChunkEntry = record c {
          ref_count = if live then c.ref_count -ℤ pos 1 else c.ref_count;
        } in
        (
          if live && is_zero_ℤ c'.ref_count then c.len else 0,
          t.stored (key_bytes (chunk id)) (j.chunk_doc c') s,
          rw (
            e,
            decrement_chunk_ref_tx,
            save_stores tx json t (chunk id) s json.marshal_chunk c' (j.chunk_doc c')
                (j.marshals_chunk c'),
          ),
          store_chunk id c' s (ground (arith, -ℤ_parts c.ref_count (pos 1))) w,
        )
  ]

  pub decrement_all-Kept :
      (ids : List Bytes) (a b : ℕ) (s : S)
      → IsIndex t j s
      → (m n : ℕ) × (s' : S) × (decrement_all tx json s ids a b ≡ ok (m, n, s')) × KeptBlobs s s'
  unfolding decrement_all
  decrement_all-Kept [] a b s w = (a, b, s, refl, KeptBlobs-refl s w)
  decrement_all-Kept (id ∷ ids) a b s w =
      let (dead, s₁, first, k₁) = decrement_chunk_ref_tx-Kept id s w in
      let (m, n, s₂, rest, k₂) =
        decrement_all-Kept ids (a + dead) (if ltb 0 dead then suc b else b) s₁ k₁.0 in
      (m, n, s₂, rw (first, rest), KeptBlobs-trans s s₁ s₂ k₁ k₂)

  -- The namespace has the chunk, with a reference.
  abbrev pub Has : Bytes → Bytes → S → Type 0
  Has ns_id id s = Live j ns_id (t.view (key_bytes (chunk id)) s)

  abbrev pub Grown : Bytes → S → S → Type 0
  Grown ns_id s s' = KeptBlobs s s' × ((id : Bytes) → Has ns_id id s → Has ns_id id s')

  store_live :
      (ns_id id : Bytes) (c : ChunkEntry) (s : S)
      → c.namespace_id ≡ ns_id
      → pos 1 ≤ℤ c.ref_count
      → IsIndex t j s
      → let s' = t.stored (key_bytes (chunk id)) (j.chunk_doc c) s in
        Grown ns_id s s' × Has ns_id id s'
  store_live ns_id id c s own live w =
      let new : Live j ns_id (some (j.chunk_doc c)) = (c, refl, own, live) in
      (
        (
          store_chunk id c s (ground (arith, live)) w,
          λ q old.
              stored_keeps t j (Live j ns_id) (key_bytes (chunk id)) (key_bytes (chunk q))
                (j.chunk_doc c) s new old,
        ),
        (c, stored_here t j (chunk id) (j.chunk_doc c) s, own, live),
      )

  abbrev registered : ChunkEntry → Upserted S → Upserted S
  registered c u =
      let one : ChunkEntry = record c { ref_count = pos 1 } in
      record u {
        state = t.stored (key_bytes (chunk c.chunk_id)) (j.chunk_doc one) u.state;
        new_physical = u.new_physical + c.len;
      }

  abbrev shared : ChunkEntry → ChunkEntry → Upserted S → Upserted S
  shared c o u =
      let more : ChunkEntry = record o { ref_count = o.ref_count +ℤ pos 1 } in
      record {
        state = t.stored (key_bytes (chunk c.chunk_id)) (j.chunk_doc more) u.state;
        reused = u.reused ++ (c ∷ []);
        revived_bytes = if is_zero_ℤ o.ref_count then u.revived_bytes + o.len else u.revived_bytes;
        revived_chunks = if is_zero_ℤ o.ref_count then suc u.revived_chunks else u.revived_chunks;
        new_physical = u.new_physical;
      }

  upsert_chunk-Grown :
      (ns_id : Bytes) (c : ChunkEntry) (u : Upserted S)
      → c.namespace_id ≡ ns_id
      → IsIndex t j u.state
      → (u' : Upserted S) × (upsert_chunk tx json ns_id c u ≡ ok u')
        × Grown ns_id u.state u'.state
        × Has ns_id c.chunk_id u'.state
  unfolding upsert_chunk
  upsert_chunk-Grown ns_id c u own w =
      let one : ChunkEntry = record c { ref_count = pos 1 } in
      let fresh =
        save_stores tx json t (chunk c.chunk_id) u.state json.marshal_chunk one (j.chunk_doc one)
          (j.marshals_chunk one) in
      let (grown, has) = store_live ns_id c.chunk_id one u.state own (omega arith) w in
      elim (find-chunk c.chunk_id u.state w) [
        | inl e ↦ (registered c u, rw (e, upsert_chunk, fresh), grown, has)
        | inr (o, e, p) ↦
            let more : ChunkEntry = record o { ref_count = o.ref_count +ℤ pos 1 } in
            let again =
              save_stores tx json t (chunk c.chunk_id) u.state json.marshal_chunk more
                (j.chunk_doc more) (j.marshals_chunk more) in
            elim (Bool-cases (bytes_eq o.namespace_id ns_id)) [
              | inl same ↦
                  let (grown', has') =
                    store_live ns_id c.chunk_id more u.state (bytes_eq_sound _ _ same)
                      (ground (arith, p, +ℤ_parts o.ref_count (pos 1))) w in
                  (shared c o u, rw (e, upsert_chunk, same, again), grown', has')
              | inr foreign ↦ (registered c u, rw (e, upsert_chunk, foreign, fresh), grown, has)
            ]
      ]

  pub upsert_chunks-Grown :
      (ns_id : Bytes) (cs : List ChunkEntry) (u : Upserted S)
      → All (λ (c : ChunkEntry). c.namespace_id ≡ ns_id) cs
      → IsIndex t j u.state
      → (u' : Upserted S) × (upsert_chunks tx json ns_id cs u ≡ ok u')
        × Grown ns_id u.state u'.state
        × All (λ (c : ChunkEntry). Has ns_id c.chunk_id u'.state) cs
  unfolding upsert_chunks
  upsert_chunks-Grown ns_id [] u own w = (u, refl, (KeptBlobs-refl u.state w, λ id h. h), tt)
  upsert_chunks-Grown ns_id (c ∷ cs) u own w =
      let (u₁, first, g₁, has) = upsert_chunk-Grown ns_id c u own.0 w in
      let (u₂, rest, g₂, all) = upsert_chunks-Grown ns_id cs u₁ own.1 g₁.0.0 in
      (
        u₂,
        rw (first, rest),
        (KeptBlobs-trans u.state u₁.state u₂.state g₁.0 g₂.0, λ id h. g₂.1 id (g₁.1 id h)),
        (g₂.1 c.chunk_id has, all),
      )
