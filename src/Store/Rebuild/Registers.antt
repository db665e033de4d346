-- ===== src/Store/Rebuild/Registers.antt =====
-- What RebuildIndex does to the index.
use blobs.Base.{
  ◌≡◌, refl, sym, subst, ◌∙◌, ◌⊎◌, inl, inr, true, List, [], ◌∷◌, Option, none, some, replicate,
  Bool-cases, arith, bytes_eq, bytes_eq_sound,
}
use blobs.Base.Bytes.{Bytes}
use blobs.Base.Int.{pos}
use blobs.Errors.{ok, err, wrapped, ok_inj}
use blobs.Object.{ChunkEntry, BlobEntry}
use blobs.Step.{Step, ◌>>=◌, update-cases, After, After-bind, After-update}
use blobs.Index.Tx.{Tx, IsTx}
use blobs.Index.Json.{Json, IsJson}
use blobs.Index.Keys.{blob, chunk, key_bytes, key_bytes-injective}
use blobs.Index.Commit.Chunks.{Kept, Kept-refl, Kept-trans, Kept-store}
use blobs.Index.Commit.Steps.{save_stores}
use blobs.Index.Commit.WellFormed.{IsIndex, stored_other, stored_here}
use blobs.Index.Records.{put_chunk, put_blob}
use blobs.Store.Rebuild.{
  BlobAccum, accumulate, order_ids, is_whole, rebuild_pages, put_rebuilt, rebuild_blobs, rebuild,
}
use blobs.Store.Recovery.{presumed, recovered}
use blobs.Volume.Flags.{is_deleted}
use blobs.Volume.Header.{PageHeader}
use blobs.Volume.Scan.{flags_of}

module _ {S V : Type 0} {tx : Tx S V} {json : Json V} (t : IsTx tx) (j : IsJson json) where
  -- The chunk has a record of its own with the count 1.
  abbrev pub Registered : S → Bytes → Type 0
  Registered s id =
      (c : ChunkEntry) × (t.view (key_bytes (chunk id)) s ≡ some (j.chunk_doc c))
      × (c.chunk_id ≡ id)
      × (c.ref_count ≡ pos 1)

  -- Every page is deleted, or its chunk is registered.
  abbrev pub AllRegistered : S → List (ChunkEntry × PageHeader) → Type 0
  AllRegistered s [] = Unit {0}
  AllRegistered s ((c, h) ∷ r) =
      ((is_deleted (flags_of h) ≡ true) ⊎ Registered s c.chunk_id) × AllRegistered s r

  -- Well-formed, with the references as they were, and what is registered stays so.
  abbrev pub Grows : S → S → Type 0
  Grows s s' = Kept t j s s' × ((id : Bytes) → Registered s id → Registered s' id)

  Grows-refl : (s : S) → IsIndex t j s → Grows s s
  Grows-refl s w = (Kept-refl t j s w, λ id h. h)

  Grows-trans : (a b c : S) → Grows a b → Grows b c → Grows a c
  Grows-trans a b c x y = (Kept-trans t j a b c x.0 y.0, λ id h. y.1 id (x.1 id h))

  put_chunk-Grows :
      (c : ChunkEntry) (s s' : S)
      → IsIndex t j s
      → put_chunk tx json (presumed c) s ≡ ok s'
      → Grows s s' × Registered s' c.chunk_id
  unfolding put_chunk presumed
  put_chunk-Grows c s s' w h =
      let k = chunk c.chunk_id in
      let d = j.chunk_doc (presumed c) in
      let next = ok_inj (
        sym (
          save_stores tx json t k s json.marshal_chunk (presumed c) d
            (j.marshals_chunk (presumed c)))
        ∙ h) in
      subst (λ (x : S). Grows s x × Registered x c.chunk_id) next
        (
          (
            Kept-store t j k d s tt (λ n q e. cc) (inr (presumed c, refl, omega arith)) w,
            λ id old. elim (Bool-cases (bytes_eq (key_bytes k) (key_bytes (chunk id)))) [
              | inl e ↦
                  let same = key_bytes-injective k (chunk id) tt tt (bytes_eq_sound _ _ e) in
                  (
                    presumed c,
                    t.view-stored (key_bytes (chunk id)) (key_bytes k) d s ∙ rw e refl,
                    ground (arith, same),
                    refl,
                  )
              | inr e ↦ (
                old.0,
                t.view-stored (key_bytes (chunk id)) (key_bytes k) d s ∙ rw e old.1,
                old.2,
                old.3,
              )
            ],
          ),
          (presumed c, stored_here t j k d s, refl, refl),
        )

  put_blob-Grows :
      (b : BlobEntry) (s s' : S) → IsIndex t j s → put_blob tx json b s ≡ ok s' → Grows s s'
  unfolding put_blob
  put_blob-Grows b s s' w h =
      let k = blob b.blob_id in
      let d = j.blob_doc b in
      let next =
        ok_inj (sym (save_stores tx json t k s json.marshal_blob b d (j.marshals_blob b)) ∙ h) in
      subst (Grows s) next (
        Kept-store t j k d s tt (λ n q e. cc) (inr (b, refl)) w,
        λ id old. (old.0, stored_other t j k (chunk id) d s tt tt (λ e. cc) ∙ old.1, old.2, old.3),
      )

  AllRegistered-Grows :
      (pages : List (ChunkEntry × PageHeader)) (s s' : S)
      → Grows s s'
      → AllRegistered s pages
      → AllRegistered s' pages
  AllRegistered-Grows [] s s' g h = tt
  AllRegistered-Grows ((c, x) ∷ r) s s' g (inl gone, h) = (inl gone, AllRegistered-Grows r s s' g h)
  AllRegistered-Grows ((c, x) ∷ r) s s' g (inr here, h) =
      (inr (g.1 c.chunk_id here), AllRegistered-Grows r s s' g h)

  -- Whatever the call gives, the index grows, and where it succeeds all pages are registered.
  abbrev pub Rebuilds : {A : Type 0} → List (ChunkEntry × PageHeader) → S → Step S A → Type 0
  Rebuilds pages s (s', ok a) = Grows s s' × AllRegistered s' pages
  Rebuilds pages s (s', err x) = Grows s s'

  Rebuilds-page :
      {A : Type 0} (c : ChunkEntry) (h : PageHeader) (r : List (ChunkEntry × PageHeader)) (s s₁ : S)
      (m : Step S A)
      → Grows s s₁
      → (is_deleted (flags_of h) ≡ true) ⊎ Registered s₁ c.chunk_id
      → Rebuilds r s₁ m
      → Rebuilds ((c, h) ∷ r) s m
  Rebuilds-page c h r s s₁ (s', ok a) g (inl gone) (k, all) =
      (Grows-trans s s₁ s' g k, (inl gone, all))
  Rebuilds-page c h r s s₁ (s', ok a) g (inr here) (k, all) =
      (Grows-trans s s₁ s' g k, (inr (k.1 c.chunk_id here), all))
  Rebuilds-page c h r s s₁ (s', err x) g page k = Grows-trans s s₁ s' g k

  rebuild_pages-Rebuilds :
      (pages : List (ChunkEntry × PageHeader)) (accs : List BlobAccum) (s : S)
      → IsIndex t j s
      → Rebuilds pages s (rebuild_pages tx json pages accs s)
  unfolding rebuild_pages
  rebuild_pages-Rebuilds [] accs s w = (Grows-refl s w, tt)
  rebuild_pages-Rebuilds ((c, h) ∷ r) accs s w = elim (Bool-cases (is_deleted (flags_of h))) [
    | inl gone ↦
        rw (gone, rebuild_pages)
          (Rebuilds-page c h r s s (rebuild_pages tx json r accs s) (Grows-refl s w) (inl gone)
            (rebuild_pages-Rebuilds r accs s w))
    | inr there ↦
        rw (there, rebuild_pages)
          (update-cases (Rebuilds ((c, h) ∷ r) s) s _ (put_chunk tx json (presumed c) s) _
            (λ e. Grows-refl s w)
            λ s' put.
              let (g, here) = put_chunk-Grows c s s' w put in
              Rebuilds-page c h r s s' (rebuild_pages tx json r (accumulate c h accs) s') g
                (inr here) (rebuild_pages-Rebuilds r (accumulate c h accs) s' g.0.0))
  ]

  put_rebuilt-Grows :
      (acc : BlobAccum) (ids : Option (List Bytes)) (s : S)
      → IsIndex t j s
      → After (Grows s) (put_rebuilt tx json acc ids s)
  unfolding put_rebuilt
  put_rebuilt-Grows acc none s w = Grows-refl s w
  put_rebuilt-Grows acc (some ids) s w =
      After-update (Grows s) s (wrapped "store: rebuild blob")
        (put_blob tx json (recovered acc.blob_id ids acc.total_size) s) _ (Grows-refl s w)
        λ s' put. put_blob-Grows (recovered acc.blob_id ids acc.total_size) s s' w put

  rebuild_blobs-Grows :
      (accs : List BlobAccum) (s : S)
      → IsIndex t j s
      → After (Grows s) (rebuild_blobs tx json accs s)
  unfolding rebuild_blobs
  rebuild_blobs-Grows [] s w = Grows-refl s w
  rebuild_blobs-Grows (acc ∷ accs) s w = elim (Bool-cases (is_whole acc)) [
    | inr lacks ↦ rw (lacks, rebuild_blobs) (rebuild_blobs-Grows accs s w)
    | inl whole ↦
        let ids = order_ids acc.chunk_ids (replicate acc.total_chunks []) in
        rw (whole, rebuild_blobs)
          (After-bind (Grows s) (put_rebuilt tx json acc ids s) _ (put_rebuilt-Grows acc ids s w)
            λ s' u g.
              Grows-trans s s' (rebuild_blobs tx json accs s').0 g
                (rebuild_blobs-Grows accs s' g.0.0))
  ]

  Rebuilds-last :
      {A : Type 0} (pages : List (ChunkEntry × PageHeader)) (s s₁ : S) (m : Step S A)
      → Grows s s₁
      → AllRegistered s₁ pages
      → After (Grows s₁) m
      → Rebuilds pages s m
  Rebuilds-last pages s s₁ (s', ok a) g all k =
      (Grows-trans s s₁ s' g k, AllRegistered-Grows pages s₁ s' k all)
  Rebuilds-last pages s s₁ (s', err x) g all k = Grows-trans s s₁ s' g k

  Rebuilds-then :
      {A B : Type 0} (pages : List (ChunkEntry × PageHeader)) (s : S) (m : Step S A)
      (f : S → A → Step S B)
      → Rebuilds pages s m
      → ((s' : S) (a : A) → IsIndex t j s' → After (Grows s') (f s' a))
      → Rebuilds pages s (m >>= f)
  Rebuilds-then pages s (s', err x) f h k = h
  Rebuilds-then pages s (s', ok a) f (g, all) k =
      Rebuilds-last pages s s' (f s' a) g all (k s' a g.0.0)

  -- RebuildIndex of scanned pages into a well-formed index, also where it stops at an error: the
  -- index is well-formed, every reference is as it was, and what was registered is so still. Where
  -- it succeeds, the chunk of every page that is not deleted has a record with the count 1.
  pub rebuild-Rebuilds :
      (pages : List (ChunkEntry × PageHeader)) (s : S)
      → IsIndex t j s
      → Rebuilds pages s (rebuild tx json pages s)
  unfolding rebuild
  rebuild-Rebuilds pages s w =
      Rebuilds-then pages s (rebuild_pages tx json pages [] s) _
        (rebuild_pages-Rebuilds pages [] s w) λ s' accs w'. rebuild_blobs-Grows accs s' w'
