-- ===== src/Store/Compact/Moves.antt =====
-- Phase 2 of compaction: what it changes in the index.
use blobs.Base.{
  ℕ, ◌+◌, ◌≡◌, refl, sym, ap, subst, ◌∙◌, inl, inr, Bool, ◌||◌, List, [], ◌∷◌, Option, some,
  bytes_eq, bytes_eq_sound, Bool-cases,
}
use blobs.Base.Bytes.{Bytes}
use blobs.Base.Int.{pos, ◌≤ℤ◌}
use blobs.Errors.{Error, Result, ok, err, wrapped, ok_inj}
use blobs.Object.{ChunkEntry}
use blobs.Step.{Step, ◌>>=◌, After, After-bind, After-update}
use blobs.Index.Tx.{Tx, IsTx}
use blobs.Index.Json.{Json, IsJson}
use blobs.Index.Keys.{Key, ns, ref, blob, chunk, stats, key_bytes, IsKey, key_bytes-injective}
use blobs.Index.Commit.Steps.{save_stores}
use blobs.Index.Commit.WellFormed.{IsIndex, stored-IsIndex, stored_here}
use blobs.Index.Records.{get_chunk, put_chunk}
use blobs.Index.Scan.Spares.{chunk_doc-injective}
use blobs.Store.Handle.{Store}
use blobs.Store.Parts.{Parts, on_engine, on_index, on_namespace-After}
use blobs.Store.Compact.{carried, relocate, compact_segment, compact_segments, compact_phase2}
use blobs.Volume.Engine.{Engine}
use blobs.Volume.Scan.{is_active, rewrite_segment, delete_segment_file}
use blobs.Volume.Stats.{SegmentStat, dead_ratio, segment_stats}

module _ {S V : Type 0} {tx : Tx S V} {json : Json V} (t : IsTx tx) (j : IsJson json) where
  -- A chunk's record may change but for what only the index knows; any other record may not.
  abbrev pub Carried : Key → Option V → Option V → Type 0
  Carried (ns id) o o' = o' ≡ o
  Carried (ref n k) o o' = o' ≡ o
  Carried (blob id) o o' = o' ≡ o
  Carried (stats id) o o' = o' ≡ o
  Carried (chunk id) o o' =
      (c : ChunkEntry)
      → o ≡ some (j.chunk_doc c)
      → (c' : ChunkEntry) × (o' ≡ some (j.chunk_doc c'))
        × (c'.ref_count ≡ c.ref_count)
        × (c'.nonce ≡ c.nonce)
        × (c'.tag ≡ c.tag)

  pub Carried-refl : (k : Key) (o : Option V) → Carried k o o
  Carried-refl (ns id) o = refl
  Carried-refl (ref n q) o = refl
  Carried-refl (blob id) o = refl
  Carried-refl (stats id) o = refl
  Carried-refl (chunk id) o = λ c h. (c, h, refl, refl, refl)

  pub Carried-trans : (k : Key) (a b c : Option V) → Carried k a b → Carried k b c → Carried k a c
  Carried-trans (ns id) a b c x y = y ∙ x
  Carried-trans (ref n q) a b c x y = y ∙ x
  Carried-trans (blob id) a b c x y = y ∙ x
  Carried-trans (stats id) a b c x y = y ∙ x
  Carried-trans (chunk id) a b c x y = λ d h.
      let (d', h', r, n, g) = x d h in
      let (d'', h'', r', n', g') = y d' h' in (d'', h'', r' ∙ r, n' ∙ n, g' ∙ g)

  abbrev pub Carries : S → S → Type 0
  Carries s s' =
      IsIndex t j s'
      × ((k : Key) → IsKey k → Carried k (t.view (key_bytes k) s) (t.view (key_bytes k) s'))

  Carries-refl : (s : S) → IsIndex t j s → Carries s s
  Carries-refl s w = (w, λ k v. Carried-refl k (t.view (key_bytes k) s))

  Carries-trans : (a b c : S) → Carries a b → Carries b c → Carries a c
  Carries-trans a b c x y = (
    y.0,
    λ k v.
        Carried-trans k (t.view (key_bytes k) a) (t.view (key_bytes k) b) (t.view (key_bytes k) c)
          (x.1 k v) (y.1 k v),
  )

  get_chunk-ok :
      (id : Bytes) (s : S) (c : ChunkEntry)
      → IsIndex t j s
      → get_chunk tx json id s ≡ ok c
      → (t.view (key_bytes (chunk id)) s ≡ some (j.chunk_doc c)) × (pos 0 ≤ℤ c.ref_count)
  unfolding get_chunk
  get_chunk-ok id s c w = elim (w (chunk id) tt) [
    | inl e ↦ rw (t.get_none (key_bytes (chunk id)) s e) (λ h. absurd (cc))
    | inr (d, e, p) ↦
        rw (t.get_some (key_bytes (chunk id)) s (j.chunk_doc d) e, j.unmarshals_chunk d)
          (λ h.
            subst
              (λ (x : ChunkEntry).
                (t.view (key_bytes (chunk id)) s ≡ some (j.chunk_doc x)) × (pos 0 ≤ℤ x.ref_count))
              (ok_inj h) (e, p))
  ]

  -- The record of a relocated chunk, in place of one with the same count, nonce and tag.
  store-Carries :
      (c old : ChunkEntry) (s : S)
      → IsIndex t j s
      → get_chunk tx json c.chunk_id s ≡ ok old
      → Carries s (t.stored (key_bytes (chunk c.chunk_id)) (j.chunk_doc (carried c old)) s)
  unfolding carried
  store-Carries c old s w got =
      let (here, counted) = get_chunk-ok c.chunk_id s old w got in
      let k = chunk c.chunk_id in
      let d = j.chunk_doc (carried c old) in
      let s' = t.stored (key_bytes k) d s in
      (
        stored-IsIndex t j k d s tt (inr (carried c old, refl, counted)) w,
        λ q vq. elim (Bool-cases (bytes_eq (key_bytes k) (key_bytes q))) [
          | inr e ↦
              subst (Carried q (t.view (key_bytes q) s))
                (sym (t.view-stored (key_bytes q) (key_bytes k) d s ∙ rw e refl))
                (Carried-refl q (t.view (key_bytes q) s))
          | inl e ↦
              subst (λ (x : Key). Carried x (t.view (key_bytes x) s) (t.view (key_bytes x) s'))
                (key_bytes-injective k q tt vq (bytes_eq_sound (key_bytes k) (key_bytes q) e))
                (λ b h.
                  let same = chunk_doc-injective t j old b (sym here ∙ h) in
                  (
                    carried c old,
                    stored_here t j k d s,
                    ap (λ (x : ChunkEntry). x.ref_count) same,
                    ap (λ (x : ChunkEntry). x.nonce) same,
                    ap (λ (x : ChunkEntry). x.tag) same,
                  ))
        ],
      )

  put_chunk-ok :
      (c : ChunkEntry) (s s' : S)
      → put_chunk tx json c s ≡ ok s'
      → s' ≡ t.stored (key_bytes (chunk c.chunk_id)) (j.chunk_doc c) s
  unfolding put_chunk
  put_chunk-ok c s s' h = ok_inj (
      sym h
      ∙ save_stores tx json t (chunk c.chunk_id) s json.marshal_chunk c (j.chunk_doc c)
          (j.marshals_chunk c))

  relocate-Carries :
      (cs : List ChunkEntry) (s : S) → IsIndex t j s → After (Carries s) (relocate tx json cs s)
  unfolding relocate carried
  relocate-Carries [] s w = Carries-refl s w
  relocate-Carries (c ∷ cs) s w =
      After-update (Carries s) s (wrapped "relocate chunk: look up existing record")
        (get_chunk tx json c.chunk_id s) _ (Carries-refl s w)
        λ old got.
          After-update (Carries s) s (wrapped "relocate chunk")
            (put_chunk tx json (carried c old) s) _ (Carries-refl s w)
            λ s' put.
              let step =
                subst (Carries s) (sym (put_chunk-ok (carried c old) s s' put))
                  (store-Carries c old s w got) in
              Carries-trans s s' (relocate tx json cs s').0 step (relocate-Carries cs s' step.0)

  engine-then :
      {A B : Type 0} (s : S) (p : Parts S) (wrap : Error → Error) (out : Engine × Result A)
      (f : Parts S → A → Step (Parts S) B)
      → Carries s p.index
      → ((q : Parts S) (a : A) → Carries s q.index → After (λ r. Carries s r.index) (f q a))
      → After (λ q. Carries s q.index) (on_engine p wrap out >>= f)
  engine-then s p wrap (e, err x) f h k = h
  engine-then s p wrap (e, ok a) f h k = k (record p { engine = e }) a h

  index-then :
      {A B : Type 0} (s : S) (p : Parts S) (wrap : Error → Error) (m : Step S A)
      (f : Parts S → A → Step (Parts S) B)
      → Carries s p.index
      → After (Carries p.index) m
      → ((q : Parts S) (a : A) → Carries s q.index → After (λ r. Carries s r.index) (f q a))
      → After (λ q. Carries s q.index) (on_index p wrap m >>= f)
  index-then s p wrap (s', err x) f h g k = Carries-trans s p.index s' h g
  index-then s p wrap (s', ok a) f h g k =
      k (record p { index = s' }) a (Carries-trans s p.index s' h g)

  module _ (now : ℕ) (below : ℕ × ℕ → Bool) where
    compact_segment-Carries :
        (seg : ℕ) (s : S) (p : Parts S)
        → Carries s p.index
        → After (λ q. Carries s q.index) (compact_segment tx json now below seg p)
    unfolding compact_segment
    compact_segment-Carries seg s p h =
        engine-then {B = ℕ} s p (wrapped "rewrite segment") (rewrite_segment now p.engine seg) _ h
          λ p₁ done h₁.
            index-then {B = ℕ} s p₁ (λ x. x) (relocate tx json done.1.relocated p₁.index) _ h₁
              (relocate-Carries done.1.relocated p₁.index h₁.0)
              λ p₂ u h₂.
                engine-then {B = ℕ} s p₂ (wrapped "delete old segment")
                  (delete_segment_file p₂.engine seg) _ h₂ λ p₃ v h₃. h₃

    compact_segments-Carries :
        (ss : List SegmentStat) (bytes segments : ℕ) (s : S) (p : Parts S)
        → Carries s p.index
        → After (λ q. Carries s q.index) (compact_segments tx json now below ss bytes segments p)
    unfolding compact_segments
    compact_segments-Carries [] bytes segments s p h = h
    compact_segments-Carries (x ∷ ss) bytes segments s p h =
        elim (Bool-cases (is_active p.engine x.segment_id || below (dead_ratio x))) [
          | inl skip ↦
              rw (skip, compact_segments) (compact_segments-Carries ss bytes segments s p h)
          | inr rewrite ↦
              rw (rewrite, compact_segments)
                (After-bind (λ q. Carries s q.index)
                  (compact_segment tx json now below x.segment_id p) _
                  (compact_segment-Carries x.segment_id s p h)
                  λ p₁ freed h₁. compact_segments-Carries ss (bytes + freed) (segments + 1) s p₁ h₁)
        ]

    pub compact_phase2-Carries :
        (ns_id : Bytes) (st : Store S Engine)
        → IsIndex t j st.index
        → After (λ st'. Carries st.index st'.index) (compact_phase2 tx json now below ns_id st)
    unfolding compact_phase2
    compact_phase2-Carries ns_id st w =
        on_namespace-After (Carries st.index) ns_id st _ (Carries-refl st.index w) λ e.
          compact_segments-Carries (segment_stats e) 0 0 st.index
            (record { index = st.index; engine = e }) (Carries-refl st.index w)
