-- ===== src/Store/Compact/Whole.antt =====
-- Compaction as a whole: what is left of the index after both phases.
use blobs.Base.{ℕ, refl, sym, subst, Bool, List}
use blobs.Base.Bytes.{Bytes}
use blobs.Errors.{Result, ok, err}
use blobs.Step.{Step, After}
use blobs.Index.Tx.{Tx, IsTx}
use blobs.Index.Json.{Json, IsJson}
use blobs.Index.Keys.{Key, key_bytes, IsKey}
use blobs.Index.Commit.WellFormed.{IsIndex}
use blobs.Index.Scan.Spares.{Needed, Spares}
use blobs.Store.Handle.{Store}
use blobs.Store.Parts.{Parts, on_namespace-After}
use blobs.Store.Compact.{
  CompactResult, compact_phase1, compact_phase2, compact_pages, add_phase2, go_on,
  compact_with_options,
}
use blobs.Store.Compact.Reaping.{Reaps, compact_pages-Reaps}
use blobs.Volume.Engine.{Engine}
use blobs.Store.Compact.Moves.{
  Carried, Carried-refl, Carried-trans, Carries, compact_phase2-Carries,
}

module _ {S V : Type 0} {tx : Tx S V} {json : Json V} (t : IsTx tx) (j : IsJson json) (now : ℕ)
    (below : ℕ × ℕ → Bool) where
  -- What is needed before has a record after, with the count, the nonce and the tag that it had.
  abbrev pub Survives : S → S → Type 0
  Survives s s' =
      IsIndex t j s'
      × ((k : Key)
          → IsKey k
          → Needed t j k (t.view (key_bytes k) s)
          → Carried t j k (t.view (key_bytes k) s) (t.view (key_bytes k) s'))

  Spares-Survives : (s s' : S) → Spares t j s s' → Survives s s'
  Spares-Survives s s' h = (
    h.0,
    λ k v n.
        subst (Carried t j k (t.view (key_bytes k) s)) (sym (h.1 k v n))
          (Carried-refl t j k (t.view (key_bytes k) s)),
  )

  Survives-Carries : (a b c : S) → Survives a b → Carries t j b c → Survives a c
  Survives-Carries a b c x y = (
    y.0,
    λ k v n.
        Carried-trans t j k (t.view (key_bytes k) a) (t.view (key_bytes k) b)
          (t.view (key_bytes k) c) (x.1 k v n) (y.1 k v),
  )

  reaped :
      {A : Type 0} (s : S) (e : Engine) (m : Step (Parts S) A)
      → After (Reaps t j (record { index = s; engine = e })) m
      → After (λ q. Survives s q.index) m
  reaped s e (q, r) h = Spares-Survives s q.index h.0

  add_phase2-Survives :
      (s : S) (st : Store S Engine) (r : CompactResult) (m : Step (Store S Engine) (ℕ × ℕ))
      → Survives s st.index
      → After (λ st'. Carries t j st.index st'.index) m
      → Survives s (add_phase2 tx json now below r m).0.index
  unfolding add_phase2
  add_phase2-Survives s st r (st', err x) h k = Survives-Carries s st.index st'.index h k
  add_phase2-Survives s st r (st', ok (b, n)) h k = Survives-Carries s st.index st'.index h k

  go_on-Survives :
      (ns_id : Bytes) (s : S) (m : Step (Store S Engine) CompactResult)
      → After (λ st'. Survives s st'.index) m
      → Survives s (go_on tx json now below ns_id m).0.index
  unfolding go_on
  go_on-Survives ns_id s (st, err x) h = h
  go_on-Survives ns_id s (st, ok r) h =
      add_phase2-Survives s st r (compact_phase2 tx json now below ns_id st) h
        (compact_phase2-Carries t j now below ns_id st h.0)

  module _ (scan : Bytes → S → Result (List V)) (ns_id : Bytes) where
    compact_phase1-Survives :
        (st : Store S Engine)
        → IsIndex t j st.index
        → After (λ st'. Survives st.index st'.index) (compact_phase1 tx json scan ns_id st)
    unfolding compact_phase1
    compact_phase1-Survives st w =
        on_namespace-After (Survives st.index) ns_id st _
          (Spares-Survives st.index st.index (w, λ k v n. refl))
          λ e.
            let p : Parts S = record { index = st.index; engine = e } in
            reaped st.index e (compact_pages tx json scan ns_id p)
              (compact_pages-Reaps t j scan ns_id p w)

    -- Compact of a well-formed index, wherever it stops and whatever the segments hold: the index
    -- is well-formed after it, and so are all namespaces and references as they were, and the
    -- blobs with a reference. A chunk with a reference still has a record, with its count,
    -- its nonce and its tag.
    pub compact_with_options-Survives :
        (st : Store S Engine)
        → IsIndex t j st.index
        → Survives st.index (compact_with_options tx json now below scan ns_id st).0.index
    unfolding compact_with_options
    compact_with_options-Survives st w =
        go_on-Survives ns_id st.index (compact_phase1 tx json scan ns_id st)
          (compact_phase1-Survives st w)
