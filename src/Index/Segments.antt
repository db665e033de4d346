-- ===== src/Index/Segments.antt =====
-- The records of segments (index.go): PutSegment, GetSegment and ListSegments.
use mathlib.Core.List.{reverse}
use blobs.Base.{
  ℕ, ◌≡◌, ◌≢◌, false, List, ◌∷◌, ◌++◌, [], arith, bytes_eq, bytes_eq_refl, bytes_eq_sound,
  Bool-cases, inl, inr,
}
use blobs.Base.Bytes.{Bytes, text, put_uint}
use blobs.Errors.{Result, ok, ◌>>=◌}
use blobs.Object.{SegmentEntry}
use blobs.Volume.Address.{hex}
use blobs.Index.Tx.{Tx, IsTx}
use blobs.Index.Json.{Json}
use blobs.Index.Keys.{Key, ns, ref, blob, chunk, stats, key_bytes}
use blobs.Index.Records.{collect}

-- SegmentID.String, of a uint64.
unfoldable segment_name : ℕ → Bytes
segment_name id = hex (reverse (put_uint 8 id))

unfoldable prefix_seg : Bytes → Bytes
prefix_seg ns_id = text "seg:" ++ (ns_id ++ (b':' ∷ []))

unfoldable key_seg : Bytes → ℕ → Bytes
key_seg ns_id id = text "seg:" ++ (ns_id ++ (b':' ∷ segment_name id))

-- marshal and unmarshal of a segment's record.
pub record SegmentJson (V : Type 0) : Type 0 where
  pub marshal : SegmentEntry → Result V
  pub unmarshal : V → Result SegmentEntry

module _ {S V : Type 0} (tx : Tx S V) (segments : SegmentJson V) where
  unfoldable put_segment : SegmentEntry → S → Result S
  put_segment g s = do v ← segments.marshal g; tx.put (key_seg g.namespace_id g.segment_id) v s

  unfoldable get_segment : Bytes → ℕ → S → Result SegmentEntry
  get_segment ns_id id s = do raw ← tx.get (key_seg ns_id id) s; segments.unmarshal raw

  unfoldable list_segments :
      (Bytes → S → Result (List V)) → Json V → Bytes → S → Result (List SegmentEntry)
  list_segments scan json ns_id s = do
    vs ← scan (prefix_seg ns_id) s
    collect tx json segments.unmarshal vs

-- No other record has a segment's key.
key_seg_apart : (ns_id : Bytes) (id : ℕ) (k : Key) → key_seg ns_id id ≢ key_bytes k
unfolding key_seg key_bytes
key_seg_apart ns_id id (ns n) e = ground arith
key_seg_apart ns_id id (ref n q) e = ground arith
key_seg_apart ns_id id (blob b) e = ground arith
key_seg_apart ns_id id (chunk c) e = ground arith
key_seg_apart ns_id id (stats n) e = ground arith

key_seg_other :
    (ns_id : Bytes) (id : ℕ) (k : Key) → bytes_eq (key_seg ns_id id) (key_bytes k) ≡ false
key_seg_other ns_id id k = elim (Bool-cases (bytes_eq (key_seg ns_id id) (key_bytes k))) [
  | inl e ↦ absurd (key_seg_apart ns_id id k (bytes_eq_sound _ _ e))
  | inr e ↦ e
]

module _ {S V : Type 0} {tx : Tx S V} (t : IsTx tx) (segments : SegmentJson V) where
  -- A segment's record is read back behind PutSegment, and every other kind of record is as it was.
  put_segment-get_segment :
      (g : SegmentEntry) (v : V) (s : S)
      → segments.marshal g ≡ ok v
      → segments.unmarshal v ≡ ok g
      → (s' : S) × (put_segment tx segments g s ≡ ok s')
        × (get_segment tx segments g.namespace_id g.segment_id s' ≡ ok g)
        × ((k : Key) → t.view (key_bytes k) s' ≡ t.view (key_bytes k) s)
  unfolding put_segment get_segment
  put_segment-get_segment g v s m u =
      let q = key_seg g.namespace_id g.segment_id in
      (
        t.stored q v s,
        rw m (t.put_stores q v s),
        rw (t.get_some q (t.stored q v s) v (rw (t.view-stored q q v s, bytes_eq_refl q))) u,
        λ k. rw (t.view-stored (key_bytes k) q v s, key_seg_other g.namespace_id g.segment_id k),
      )
