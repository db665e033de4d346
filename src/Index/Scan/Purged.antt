-- ===== src/Index/Scan/Purged.antt =====
-- PurgeDeadBlobs (index.go) over a backend whose Scan misses no key.
use mathlib.Core.List.{Memᴰ}
use mathlib.Core.List.Memᴰ
use mathlib.Core.Path.{subst}
use blobs.Base.{
  ℕ, ◌+◌, ◌≡◌, ◌≢◌, refl, sym, ap, ◌∙◌, ◌⊎◌, inl, inr, Bool, true, false, List, [], ◌∷◌, ◌++◌, none,
  some, if◌then◌else◌, arith, Bool-cases, bytes_eq, bytes_eq_refl, bytes_eq_sound,
}
use blobs.Base.Bytes.{Bytes, text}
use blobs.Base.Int.{pos, ltb_ℤ, ◌≤ℤ◌}
use blobs.Errors.{Result, ok}
use blobs.Object.{BlobEntry}
use blobs.Step.{After}
use blobs.Index.Tx.{Tx, IsTx}
use blobs.Index.Json.{Json, IsJson}
use blobs.Index.Keys.{blob, key_bytes, key_bytes-injective}
use blobs.Index.Commit.{is_zero_ℤ}
use blobs.Index.Commit.Steps.{find-none, find-some}
use blobs.Index.Commit.WellFormed.{IsIndex, removed-IsIndex}
use blobs.Index.Scan.Backend.{IsScan, has_prefix-append, has_prefix_split}
use blobs.Index.Records.{collect}
use blobs.Index.Reap.{purge_blob, purge_candidates}
use blobs.Index.Scan.{purge_loop, scan_blobs, purge_dead_blobs}
use blobs.Index.Scan.Spares.{Spares, purge_dead_blobs-Spares, blob_doc-injective}

purge_candidates_complete :
    {S V : Type 0} (tx : Tx S V) (json : Json V) (b : BlobEntry) (bs : List BlobEntry)
    → b.ref_count ≡ pos 0
    → Memᴰ b bs
    → Memᴰ b.blob_id (purge_candidates tx json bs)
unfolding purge_candidates
purge_candidates_complete tx json b [] z m = absurd (Memᴰ.not-nil m)
purge_candidates_complete tx json b (c ∷ bs) z (Memᴰ.head e) =
    rw (sym e) (rw (ap is_zero_ℤ z) (Memᴰ.head refl))
purge_candidates_complete tx json b (c ∷ bs) z (Memᴰ.tail m) =
    let rest = purge_candidates_complete tx json b bs z m in
    elim (Bool-cases (is_zero_ℤ c.ref_count)) [ inl e ↦ rw e (Memᴰ.tail rest) | inr e ↦ rw e rest ]

module _ {S V : Type 0} {tx : Tx S V} {json : Json V} (t : IsTx tx) (j : IsJson json) where
  -- A later state has no new record and no changed one.
  abbrev pub Shrinks : S → S → Type 0
  Shrinks s s' = (q : Bytes) → (t.view q s' ≡ none) ⊎ (t.view q s' ≡ t.view q s)

  -- The blob's record, if there is one, has a reference.
  abbrev Purged : Bytes → S → Type 0
  Purged id s =
      (b : BlobEntry) → t.view (key_bytes (blob id)) s ≡ some (j.blob_doc b) → pos 1 ≤ℤ b.ref_count

  Shrinks-trans : (a b c : S) → Shrinks a b → Shrinks b c → Shrinks a c
  Shrinks-trans a b c x y q = elim (y q) [
    | inl e ↦ inl e
    | inr e ↦ elim (x q) [ inl f ↦ inl (e ∙ f) | inr f ↦ inr (e ∙ f) ]
  ]

  Purged-Shrinks : (id : Bytes) (s s' : S) → Shrinks s s' → Purged id s → Purged id s'
  Purged-Shrinks id s s' x g b e = elim (x (key_bytes (blob id))) [
    | inl f ↦ absurd (cc)
    | inr f ↦ g b (sym f ∙ e)
  ]

  purge_blob-Purged :
      (id : Bytes) (s : S)
      → IsIndex t j s
      → (b : Bool) × (s' : S) × (purge_blob tx json id s ≡ ok (b, s'))
        × IsIndex t j s'
        × Shrinks s s'
        × Purged id s'
  unfolding purge_blob
  purge_blob-Purged id s w =
      let k = key_bytes (blob id) in
      elim (w (blob id) tt) [
        | inl e ↦ (
          false,
          s,
          rw (find-none tx json t (blob id) s json.unmarshal_blob e, purge_blob) refl,
          w,
          λ q. inr refl,
          λ b h. absurd (cc),
        )
        | inr (b, e) ↦
            let got =
              find-some tx json t (blob id) s json.unmarshal_blob (j.blob_doc b) b e
                (j.unmarshals_blob b) in
            elim (Bool-cases (ltb_ℤ (pos 0) b.ref_count)) [
              | inl live ↦ (
                false,
                s,
                rw (got, live, purge_blob) refl,
                w,
                λ q. inr refl,
                λ c h.
                    subst (λ (x : BlobEntry). pos 1 ≤ℤ x.ref_count)
                      (blob_doc-injective t j b c (sym e ∙ h)) (ground (arith, live)),
              )
              | inr dead ↦ (
                true,
                t.removed k s,
                rw (got, dead, purge_blob) (rw (t.delete_removes k s) refl),
                removed-IsIndex t j (blob id) s w,
                λ q. ground (arith, t.view-removed q k s),
                λ c h. absurd (ground (arith, h, t.view-removed k k s, bytes_eq_refl k)),
              )
            ]
      ]

  purge_loop-Purged :
      (ids : List Bytes) (n : ℕ) (s : S)
      → IsIndex t j s
      → (m : ℕ) × (s' : S) × (purge_loop tx json ids n s ≡ (s', ok m))
        × Shrinks s s'
        × ((id : Bytes) → Memᴰ id ids → Purged id s')
  unfolding purge_loop
  purge_loop-Purged [] n s w = (n, s, refl, λ q. inr refl, λ id m. absurd (Memᴰ.not-nil m))
  purge_loop-Purged (id ∷ ids) n s w =
      let (b, s₁, run, w₁, small, gone) = purge_blob-Purged id s w in
      let (m, s', rest, smaller, all) = purge_loop-Purged ids (if b then n + 1 else n) s₁ w₁ in
      (
        m,
        s',
        rw (run, purge_loop) rest,
        Shrinks-trans s s₁ s' small smaller,
        λ x mem. elim (Memᴰ.cases_cons mem) [
          | inl e ↦
              subst (λ (y : Bytes). Purged y s') (sym e) (Purged-Shrinks id s₁ s' smaller gone)
          | inr later ↦ all x later
        ],
      )

  collect_all :
      (vs : List V)
      → ((v : V) → Memᴰ v vs → (b : BlobEntry) × (v ≡ j.blob_doc b))
      → (bs : List BlobEntry) × (collect tx json json.unmarshal_blob vs ≡ ok bs)
        × ((b : BlobEntry) → Memᴰ (j.blob_doc b) vs → Memᴰ b bs)
  unfolding collect
  collect_all [] h = ([], refl, λ b m. absurd (Memᴰ.not-nil m))
  collect_all (v ∷ vs) h =
      let (b, e) = h v (Memᴰ.head refl) in
      let (bs, run, all) = collect_all vs (λ x m. h x (Memᴰ.tail m)) in
      (
        b ∷ bs,
        rw (e, j.unmarshals_blob b, run, collect) refl,
        λ c m. elim (Memᴰ.cases_cons m) [
          | inl same ↦ Memᴰ.head (blob_doc-injective t j c b (ap some (same ∙ e)))
          | inr later ↦ Memᴰ.tail (all c later)
        ],
      )

  -- The blobs are recorded under their identifiers.
  abbrev pub IsById : S → Type 0
  IsById s =
      (id : Bytes) (b : BlobEntry)
      → t.view (key_bytes (blob id)) s ≡ some (j.blob_doc b)
      → b.blob_id ≡ id

  -- The record that PutBlob writes keeps this so.
  pub stored_blob-IsById :
      (b : BlobEntry) (s : S)
      → IsById s
      → IsById (t.stored (key_bytes (blob b.blob_id)) (j.blob_doc b) s)
  stored_blob-IsById b s own id c h =
      elim (Bool-cases (bytes_eq (key_bytes (blob b.blob_id)) (key_bytes (blob id)))) [
        | inl e ↦
            let same =
              key_bytes-injective (blob b.blob_id) (blob id) tt tt (bytes_eq_sound _ _ e) in
            let mine = blob_doc-injective t j c b (
              sym h
              ∙ t.view-stored (key_bytes (blob id)) (key_bytes (blob b.blob_id)) _ s
              ∙ rw e refl) in
            ground (arith, same, mine)
        | inr e ↦ own id c (
            sym (t.view-stored (key_bytes (blob id)) (key_bytes (blob b.blob_id)) _ s ∙ rw e refl)
            ∙ h)
      ]

  -- Over a backend whose Scan visits all keys with a prefix, and an index that is well-formed and
  -- records each blob under its identifier, PurgeDeadBlobs succeeds, leaves what is needed as it
  -- was, adds and changes no record, and afterwards no blob has a reference count of zero.
  pub purge_dead_blobs-Purged :
      (scan : Bytes → S → Result (List V)) (s : S)
      → IsScan t scan
      → IsIndex t j s
      → IsById s
      → (n : ℕ) × (s' : S) × (purge_dead_blobs tx json scan s ≡ (s', ok n))
        × Spares t j s s'
        × Shrinks s s'
        × ((id : Bytes) (b : BlobEntry)
            → t.view (key_bytes (blob id)) s' ≡ some (j.blob_doc b)
            → b.ref_count ≢ pos 0)
  unfolding purge_dead_blobs scan_blobs key_bytes
  purge_dead_blobs-Purged scan s c w own =
      let p = text "blob:" in
      let decoded : (v : V) → Memᴰ v (c.visited p s) → (b : BlobEntry) × (v ≡ j.blob_doc b) = λ v m.
        let (q, pre, here) = c.stored p s v m in
        let (r, e) = has_prefix_split q p pre in
        elim (w (blob r) tt) [ inl none_here ↦ absurd (cc) | inr (b, f) ↦ (b, cc) ] in
      let (bs, read, all) = collect_all (c.visited p s) decoded in
      let (n, s', run, small, gone) = purge_loop-Purged (purge_candidates tx json bs) 0 s w in
      let whole : purge_dead_blobs tx json scan s ≡ (s', ok n) = rw (c.scans p s, read) run in
      (
        n,
        s',
        whole,
        subst (After (Spares t j s)) whole (purge_dead_blobs-Spares t j scan s w),
        small,
        λ id b here zero. elim (small (key_bytes (blob id))) [
          | inl none_left ↦ absurd (cc)
          | inr same ↦
              let seen = all b (
                c.complete p s (p ++ id) (j.blob_doc b) (has_prefix-append p id)
                  (sym same ∙ here)) in
              let one =
                gone id
                  (subst (λ (x : Bytes). Memᴰ x (purge_candidates tx json bs))
                    (own id b (sym same ∙ here)) (purge_candidates_complete tx json b bs zero seen))
                  b here in
              ground (arith, zero, one)
        ],
      )
