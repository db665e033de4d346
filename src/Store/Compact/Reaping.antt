-- ===== src/Store/Compact/Reaping.antt =====
-- Phase 1 of compaction: what it leaves alone in the index and in the segments.
use blobs.Base.{
  ℕ, ◌≡◌, refl, sym, ap, subst, ◌∙◌, Bool, true, false, List, [], ◌∷◌, ◌++◌, All, length,
}
use blobs.Base.Bytes.{Bytes}
use blobs.Base.Int.{ℤ, pos}
use blobs.Errors.{Error, Result, ok, err, wrapped, ok_inj}
use blobs.Object.{ChunkEntry}
use blobs.Step.{Step, ◌>>=◌, update, After, After-update}
use blobs.Index.Tx.{Tx, IsTx}
use blobs.Index.Json.{Json, IsJson}
use blobs.Index.Keys.{chunk}
use blobs.Index.Commit.WellFormed.{IsIndex}
use blobs.Index.Reap.{Verdict, reap_physical_page_if_dead, reconcile_dead_stats}
use blobs.Index.Scan.{purge_dead_blobs}
use blobs.Index.Scan.Spares.{
  Spares, Spares-refl, Spares-trans, IsLiveHome, reap-Spares, purge_dead_blobs-Spares,
  reconcile-Spares,
}
use blobs.Store.Parts.{Parts, on_engine, on_index}
use blobs.Store.Compact.{CompactResult, dead_pages, sum_len, reap_page, reap_pages, compact_pages}
use blobs.Volume.Engine.{Engine}
use blobs.Volume.Scan.{scan_segments}
use blobs.Volume.Write.{mark_deleted}

-- The engine after a MarkDeleted of each entry, whatever these give.
abbrev pub mark_all : List ChunkEntry → Engine → Engine
mark_all [] e = e
mark_all (c ∷ cs) e = mark_all cs (mark_deleted e c).0

mark_all-append :
    (cs ds : List ChunkEntry) (e : Engine) → mark_all (cs ++ ds) e ≡ mark_all ds (mark_all cs e)
mark_all-append [] ds e = refl
mark_all-append (c ∷ cs) ds e = mark_all-append cs ds (mark_deleted e c).0

module _ {S V : Type 0} {tx : Tx S V} {json : Json V} (t : IsTx tx) (j : IsJson json) where
  -- The entry is not the place at which the index finds a chunk that has a reference.
  abbrev pub IsDeadPage : S → ChunkEntry → Type 0
  IsDeadPage s c = IsLiveHome t j c.chunk_id c.segment_id c.page_offset s → ⊥

  IsLiveHome-Spares :
      (id : Bytes) (seg off : ℕ) (s s' : S)
      → Spares t j s s'
      → IsLiveHome t j id seg off s
      → IsLiveHome t j id seg off s'
  IsLiveHome-Spares id seg off s s' kept (c, here, home, live) =
      (c, kept.1 (chunk id) tt (c, here, live) ∙ here, home, live)

  -- The index spares what is needed, and the engine has only had dead pages marked.
  abbrev pub Reaps : Parts S → Parts S → Type 0
  Reaps p p' =
      Spares t j p.index p'.index
      × ((cs : List ChunkEntry) × All (IsDeadPage p.index) cs × (p'.engine ≡ mark_all cs p.engine))

  on_index-Reaps :
      {A : Type 0} (p : Parts S) (wrap : Error → Error) (m : Step S A)
      → After (Spares t j p.index) m
      → After (Reaps p) (on_index p wrap m)
  on_index-Reaps p wrap (s, r) h = (h, ([], tt, refl))

  reap-ok :
      (c : ChunkEntry) (s : S) (v : Verdict S)
      → IsIndex t j s
      → reap_physical_page_if_dead tx json c.chunk_id c.segment_id c.page_offset s ≡ ok v
      → Spares t j s v.state × (v.safe_to_reap ≡ true → IsDeadPage s c)
  reap-ok c s v w run =
      let (v', run', kept, safe) = reap-Spares t j c.chunk_id c.segment_id c.page_offset s w in
      subst (λ (x : Verdict S). Spares t j s x.state × (x.safe_to_reap ≡ true → IsDeadPage s c))
        (ok_inj (sym run' ∙ run)) (kept, safe)

  reconcile-ok :
      (ns_id : Bytes) (bytes chunks : ℤ) (s s' : S)
      → IsIndex t j s
      → reconcile_dead_stats tx json ns_id bytes chunks s ≡ ok s'
      → Spares t j s s'
  reconcile-ok ns_id bytes chunks s s' w run =
      let (s₁, run', kept) = reconcile-Spares t j ns_id bytes chunks s w in
      subst (Spares t j s) (ok_inj (sym run' ∙ run)) kept

  Reaps-refl : (p : Parts S) → IsIndex t j p.index → Reaps p p
  Reaps-refl p w = (Spares-refl t j p.index w, ([], tt, refl))

  All-before :
      (s s' : S) (cs ds : List ChunkEntry)
      → Spares t j s s'
      → All (IsDeadPage s) cs
      → All (IsDeadPage s') ds
      → All (IsDeadPage s) (cs ++ ds)
  All-before s s' [] [] kept h k = tt
  All-before s s' [] (d ∷ ds) kept h k = (
    λ live. k.0 (IsLiveHome-Spares d.chunk_id d.segment_id d.page_offset s s' kept live),
    All-before s s' [] ds kept h k.1,
  )
  All-before s s' (c ∷ cs) ds kept h k = (h.0, All-before s s' cs ds kept h.1 k)

  Reaps-trans : (p q r : Parts S) → Reaps p q → Reaps q r → Reaps p r
  Reaps-trans p q r (x, (cs, deads, marks)) (y, (ds, more, marks')) = (
    Spares-trans t j p.index q.index r.index x y,
    (
      cs ++ ds,
      All-before p.index q.index cs ds x deads more,
      marks' ∙ ap (mark_all ds) marks ∙ sym (mark_all-append cs ds p.engine),
    ),
  )

  Reaps-index : (p : Parts S) (s : S) → Spares t j p.index s → Reaps p (record p { index = s })
  Reaps-index p s kept = (kept, ([], tt, refl))

  Reaps-then :
      {A B : Type 0} (p : Parts S) (m : Step (Parts S) A) (f : Parts S → A → Step (Parts S) B)
      → After (Reaps p) m
      → ((q : Parts S) (a : A) → IsIndex t j q.index → After (Reaps q) (f q a))
      → After (Reaps p) (m >>= f)
  Reaps-then p (q, err x) f h k = h
  Reaps-then p (q, ok a) f h k = Reaps-trans p q (f q a).0 h (k q a h.0.0)

  mark-Reaps :
      (c : ChunkEntry) (freed : ℤ × ℤ) (p : Parts S) (s : S) (out : Engine × Result (Unit {0}))
      → Spares t j p.index s
      → IsDeadPage p.index c
      → mark_deleted p.engine c ≡ out
      → After (Reaps p) (
          on_engine (record p { index = s }) (wrapped "store: mark deleted") out >>= λ p' _.
          (p', ok freed))
  mark-Reaps c freed p s (e, ok u) kept dead h =
      (kept, (c ∷ [], (dead, tt), ap (λ (o : Engine × Result (Unit {0})). o.0) (sym h)))
  mark-Reaps c freed p s (e, err x) kept dead h =
      (kept, (c ∷ [], (dead, tt), ap (λ (o : Engine × Result (Unit {0})). o.0) (sym h)))

  reap_page-Reaps :
      (c : ChunkEntry) (safe : Bool) (freed : ℤ × ℤ) (p : Parts S) (s : S)
      → Spares t j p.index s
      → (safe ≡ true → IsDeadPage p.index c)
      → After (Reaps p) (reap_page tx json c safe freed (record p { index = s }))
  unfolding reap_page
  reap_page-Reaps c false freed p s kept dead = Reaps-index p s kept
  reap_page-Reaps c true freed p s kept dead =
      mark-Reaps c freed p s (mark_deleted p.engine c) kept (dead refl) refl

  reap_pages-Reaps :
      (cs : List ChunkEntry) (freed : ℤ × ℤ) (p : Parts S)
      → IsIndex t j p.index
      → After (Reaps p) (reap_pages tx json cs freed p)
  unfolding reap_pages
  reap_pages-Reaps [] freed p w = Reaps-refl p w
  reap_pages-Reaps (c ∷ cs) freed p w =
      After-update (Reaps p) p (wrapped "store: confirm dead chunk")
        (reap_physical_page_if_dead tx json c.chunk_id c.segment_id c.page_offset p.index) _
        (Reaps-refl p w)
        λ v run.
          let (kept, dead) = reap-ok c p.index v w run in
          Reaps-then p (reap_page tx json c v.safe_to_reap freed (record p { index = v.state }))
            (λ q freed'. reap_pages tx json cs freed' q)
            (reap_page-Reaps c v.safe_to_reap freed p v.state kept dead)
            (λ q freed' w'. reap_pages-Reaps cs freed' q w')

  reconcile-Reaps :
      (ns_id : Bytes) (freed : ℤ × ℤ) (result : CompactResult) (p : Parts S)
      → IsIndex t j p.index
      → After (Reaps p) (
          update p
            (wrapped "store: compact: reconcile stats")
            (reconcile_dead_stats tx json ns_id freed.0 freed.1 p.index)
            λ s. (record p { index = s }, ok result))
  reconcile-Reaps ns_id freed result p w =
      After-update (Reaps p) p (wrapped "store: compact: reconcile stats")
        (reconcile_dead_stats tx json ns_id freed.0 freed.1 p.index) _ (Reaps-refl p w)
        λ s run. Reaps-index p s (reconcile-ok ns_id freed.0 freed.1 p.index s w run)

  -- Phase 1 of compaction on a well-formed index, wherever it stops: the index is well-formed
  -- after it, and every namespace, every reference, and every blob record and chunk record with a
  -- reference is as it was. All that it did to the engine are MarkDeleted calls, each for a page
  -- that was not the place at which the index finds a chunk with a reference.
  pub compact_pages-Reaps :
      (scan : Bytes → S → Result (List V)) (ns_id : Bytes) (p : Parts S)
      → IsIndex t j p.index
      → After (Reaps p) (compact_pages tx json scan ns_id p)
  unfolding compact_pages
  compact_pages-Reaps scan ns_id p w =
      let dead = dead_pages tx json p.index (scan_segments p.engine) in
      Reaps-then p (reap_pages tx json dead (pos (sum_len dead), pos (length dead)) p) _
        (reap_pages-Reaps dead _ p w)
        λ p₁ freed w₁.
          Reaps-then p₁
            (on_index p₁ (wrapped "store: purge dead blobs")
              (purge_dead_blobs tx json scan p₁.index))
            _
            (on_index-Reaps p₁ (wrapped "store: purge dead blobs")
              (purge_dead_blobs tx json scan p₁.index)
              (purge_dead_blobs-Spares t j scan p₁.index w₁))
            λ p₂ removed w₂. reconcile-Reaps ns_id freed _ p₂ w₂
