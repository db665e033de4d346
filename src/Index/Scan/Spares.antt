-- ===== src/Index/Scan/Spares.antt =====
-- What compaction asks of the index (index.go) leaves every record alone that is still needed.
use mathlib.Core.Path.{subst}
use blobs.Base.{
  ℕ, ◌+◌, ◌≡◌, refl, sym, ap, ◌∙◌, inl, inr, Bool, true, false, ◌&&◌, List, [], ◌∷◌, Option, none,
  some, if◌then◌else◌, arith, bytes_eq, bytes_eq_sound, Bool-cases,
}
use blobs.Base.Bytes.{Bytes}
use blobs.Base.Int.{ℤ, pos, ltb_ℤ, ◌≤ℤ◌}
use blobs.Errors.{Result, ok, ok_inj}
use blobs.Object.{BlobEntry, ChunkEntry, NamespaceStats}
use blobs.Step.{After, After-attempt}
use blobs.Index.Tx.{Tx, IsTx}
use blobs.Index.Json.{Json, IsJson}
use blobs.Index.Keys.{Key, ns, ref, blob, chunk, stats, key_bytes, IsKey, key_bytes-injective}
use blobs.Index.Commit.{put_stats_tx, clamped}
use blobs.Index.Commit.Steps.{find-none, find-some, save_stores}
use blobs.Index.Commit.Put.{get_stats_tx-total}
use blobs.Index.Commit.WellFormed.{IsIndex, Fits, Fits-none, stored-IsIndex, stored_other}
use blobs.Index.Reap.{
  Verdict, reap_physical_page_if_dead, reconcile_dead_stats, purge_blob, purge_candidates,
}
use blobs.Index.Reap.Safety.{IsHome, reap_physical_page_if_dead_lem}
use blobs.Index.Scan.{purge_loop, scan_blobs, purge_dead_blobs}

module _ {S V : Type 0} {tx : Tx S V} {json : Json V} (t : IsTx tx) (j : IsJson json) where
  -- Namespaces and references are needed, and the blobs and chunks with a reference.
  abbrev pub Needed : Key → Option V → Type 0
  Needed (ns id) o = Unit {0}
  Needed (ref n k) o = Unit {0}
  Needed (blob id) o = (b : BlobEntry) × (o ≡ some (j.blob_doc b)) × (pos 1 ≤ℤ b.ref_count)
  Needed (chunk id) o = (c : ChunkEntry) × (o ≡ some (j.chunk_doc c)) × (pos 1 ≤ℤ c.ref_count)
  Needed (stats id) o = ⊥

  -- The index is well-formed afterwards, and what was needed is as it was.
  abbrev pub Spares : S → S → Type 0
  Spares s s' =
      IsIndex t j s'
      × ((k : Key)
          → IsKey k
          → Needed k (t.view (key_bytes k) s)
          → t.view (key_bytes k) s' ≡ t.view (key_bytes k) s)

  pub Spares-refl : (s : S) → IsIndex t j s → Spares s s
  Spares-refl s w = (w, λ k v n. refl)

  pub Spares-trans : (a b c : S) → Spares a b → Spares b c → Spares a c
  Spares-trans a b c x y =
      (y.0, λ k v n. y.1 k v (subst (Needed k) (sym (x.1 k v n)) n) ∙ x.1 k v n)

  -- A removal, if any, of a record that is not needed.
  removal-Spares :
      (k : Key) (gone : Bool) (s s' : S)
      → IsKey k
      → IsIndex t j s
      → ((q : Bytes)
          → t.view q s' ≡ (if gone && bytes_eq (key_bytes k) q then none else t.view q s))
      → (gone ≡ true → Needed k (t.view (key_bytes k) s) → ⊥)
      → Spares s s'
  removal-Spares k gone s s' vk w seen unneeded = (
    λ q vq. elim (Bool-cases (gone && bytes_eq (key_bytes k) (key_bytes q))) [
      | inl e ↦ subst (Fits j q) (sym (seen (key_bytes q) ∙ rw e refl)) (Fits-none j q)
      | inr e ↦ subst (Fits j q) (sym (seen (key_bytes q) ∙ rw e refl)) (w q vq)
    ],
    λ q vq n. elim (Bool-cases (gone && bytes_eq (key_bytes k) (key_bytes q))) [
      | inr e ↦ seen (key_bytes q) ∙ rw e refl
      | inl e ↦
          let same =
            key_bytes-injective q k vq vk
              (sym (bytes_eq_sound (key_bytes k) (key_bytes q) (ground (arith, e)))) in
          absurd (
            unneeded (ground (arith, e))
              (subst (λ (x : Key). Needed x (t.view (key_bytes x) s)) same n))
    ],
  )

  pub chunk_doc-injective : (a b : ChunkEntry) → some (j.chunk_doc a) ≡ some (j.chunk_doc b) → a ≡ b
  chunk_doc-injective a b h =
      ok_inj (sym (j.unmarshals_chunk a) ∙ ap json.unmarshal_chunk (cc) ∙ j.unmarshals_chunk b)

  pub blob_doc-injective : (a b : BlobEntry) → some (j.blob_doc a) ≡ some (j.blob_doc b) → a ≡ b
  blob_doc-injective a b h =
      ok_inj (sym (j.unmarshals_blob a) ∙ ap json.unmarshal_blob (cc) ∙ j.unmarshals_blob b)

  -- The page is where the index finds a chunk that has a reference.
  abbrev pub IsLiveHome : Bytes → ℕ → ℕ → S → Type 0
  IsLiveHome id seg_id page_offset s =
      (c : ChunkEntry) × (t.view (key_bytes (chunk id)) s ≡ some (j.chunk_doc c))
      × IsHome c seg_id page_offset
      × (pos 1 ≤ℤ c.ref_count)

  reap-missing :
      (id : Bytes) (seg_id page_offset : ℕ) (s : S)
      → t.view (key_bytes (chunk id)) s ≡ none
      → reap_physical_page_if_dead tx json id seg_id page_offset s
        ≡ ok (record { safe_to_reap = true; record_deleted = false; state = s })
  unfolding reap_physical_page_if_dead
  reap-missing id seg_id page_offset s e =
      rw (find-none tx json t (chunk id) s json.unmarshal_chunk e, reap_physical_page_if_dead) refl

  -- ReapPhysicalPageIfDead always succeeds, spares what is needed, and a page it gives up is not
  -- the home of a chunk with a reference.
  pub reap-Spares :
      (id : Bytes) (seg_id page_offset : ℕ) (s : S)
      → IsIndex t j s
      → (v : Verdict S) × (reap_physical_page_if_dead tx json id seg_id page_offset s ≡ ok v)
        × Spares s v.state
        × (v.safe_to_reap ≡ true → IsLiveHome id seg_id page_offset s → ⊥)
  reap-Spares id seg_id page_offset s w = elim (w (chunk id) tt) [
    | inl e ↦ (
      record { safe_to_reap = true; record_deleted = false; state = s },
      reap-missing id seg_id page_offset s e,
      Spares-refl s w,
      λ u h. absurd (cc),
    )
    | inr (c, e, p) ↦
        let (v, run, keep, del, seen) =
          reap_physical_page_if_dead_lem tx json t j id seg_id page_offset s c e in
        (
          v,
          run,
          removal-Spares (chunk id) v.record_deleted s v.state tt w seen (λ gone n.
              let one =
                subst (λ (x : ChunkEntry). pos 1 ≤ℤ x.ref_count)
                  (chunk_doc-injective n.0 c (sym n.1 ∙ e)) n.2 in
              let zero = (del.0 gone).1 in omega arith),
          λ safe h.
              let live =
                subst (λ (x : ChunkEntry). IsHome x seg_id page_offset × (pos 1 ≤ℤ x.ref_count))
                  (chunk_doc-injective h.0 c (sym h.1 ∙ e)) (h.2, h.3) in
              let kept = keep.1 live in absurd (cc),
        )
  ]

  pub reconcile-Spares :
      (ns_id : Bytes) (bytes chunks : ℤ) (s : S)
      → IsIndex t j s
      → (s' : S) × (reconcile_dead_stats tx json ns_id bytes chunks s ≡ ok s') × Spares s s'
  unfolding reconcile_dead_stats put_stats_tx
  reconcile-Spares ns_id bytes chunks s w =
      let (st, got, own) = get_stats_tx-total t j ns_id s w in
      let st' : NamespaceStats = record st {
        dead_bytes = clamped st.dead_bytes bytes;
        dead_chunks = clamped st.dead_chunks chunks;
      } in
      let k = stats st.namespace_id in
      (
        t.stored (key_bytes k) (j.stats_doc st') s,
        rw (got, reconcile_dead_stats)
            (save_stores tx json t k s json.marshal_stats st' (j.stats_doc st')
              (j.marshals_stats st')),
        (
          stored-IsIndex t j k (j.stats_doc st') s tt (inr (st', refl, refl)) w,
          λ q vq n.
              stored_other t j k q (j.stats_doc st') s tt vq
                (λ e. subst (λ (x : Key). Needed x (t.view (key_bytes q) s)) (sym e) n),
        ),
      )

  purge_blob-Spares :
      (id : Bytes) (s : S)
      → IsIndex t j s
      → (b : Bool) × (s' : S) × (purge_blob tx json id s ≡ ok (b, s')) × Spares s s'
  unfolding purge_blob
  purge_blob-Spares id s w = elim (w (blob id) tt) [
    | inl e ↦ (
      false,
      s,
      rw (find-none tx json t (blob id) s json.unmarshal_blob e, purge_blob) refl,
      Spares-refl s w,
    )
    | inr (b, e) ↦
        let got =
          find-some tx json t (blob id) s json.unmarshal_blob (j.blob_doc b) b e
            (j.unmarshals_blob b) in
        elim (Bool-cases (ltb_ℤ (pos 0) b.ref_count)) [
          | inl live ↦ (false, s, rw (got, live, purge_blob) refl, Spares-refl s w)
          | inr dead ↦ (
            true,
            t.removed (key_bytes (blob id)) s,
            rw (got, dead, purge_blob) (rw (t.delete_removes (key_bytes (blob id)) s) refl),
            removal-Spares (blob id) true s (t.removed (key_bytes (blob id)) s) tt w
                (λ q. t.view-removed q (key_bytes (blob id)) s)
                (λ gone n.
                  let one =
                    subst (λ (x : BlobEntry). pos 1 ≤ℤ x.ref_count)
                      (blob_doc-injective n.0 b (sym n.1 ∙ e)) n.2 in
                  ground arith),
          )
        ]
  ]

  purge_loop-Spares :
      (ids : List Bytes) (n : ℕ) (s : S)
      → IsIndex t j s
      → After (Spares s) (purge_loop tx json ids n s)
  unfolding purge_loop
  purge_loop-Spares [] n s w = Spares-refl s w
  purge_loop-Spares (id ∷ ids) n s w =
      let (b, s', run, here) = purge_blob-Spares id s w in
      rw (run, purge_loop)
        (Spares-trans s s' (purge_loop tx json ids (if b then n + 1 else n) s').0 here
          (purge_loop-Spares ids (if b then n + 1 else n) s' here.0))

  -- PurgeDeadBlobs, also where it stops at an error of the backend's Scan.
  pub purge_dead_blobs-Spares :
      (scan : Bytes → S → Result (List V)) (s : S)
      → IsIndex t j s
      → After (Spares s) (purge_dead_blobs tx json scan s)
  unfolding purge_dead_blobs
  purge_dead_blobs-Spares scan s w =
      After-attempt (Spares s) s (scan_blobs tx json scan s) _ (Spares-refl s w)
        (λ blobs found. purge_loop-Spares (purge_candidates tx json blobs) 0 s w)
