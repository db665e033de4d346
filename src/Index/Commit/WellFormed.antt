-- ===== src/Index/Commit/WellFormed.antt =====
-- The invariant of the index: every record under a key of the schema decodes, and fits its key.
use mathlib.Core.Path.{subst}
use blobs.Base.{
  ◌≡◌, ◌≢◌, refl, sym, ◌∙◌, ◌⊎◌, inl, inr, false, Option, none, some, bytes_eq, bytes_eq_refl,
  bytes_eq_sound, Bool-cases,
}
use blobs.Base.Bytes.{Bytes}
use blobs.Base.Int.{pos, ◌≤ℤ◌}
use blobs.Object.{RefEntry, BlobEntry, ChunkEntry, Namespace, NamespaceStats}
use blobs.Index.Tx.{Tx, IsTx}
use blobs.Index.Json.{Json, IsJson}
use blobs.Index.Keys.{Key, ns, ref, blob, chunk, stats, key_bytes, IsKey, key_bytes-injective}

module _ {V : Type 0} {json : Json V} (j : IsJson json) where
  -- No record, or one of the key's kind.
  abbrev pub Fits : Key → Option V → Type 0
  Fits (ns id) o = (o ≡ none) ⊎ ((n : Namespace) × (o ≡ some (j.ns_doc n)))
  Fits (ref n k) o = (o ≡ none) ⊎ ((r : RefEntry) × (o ≡ some (j.ref_doc r)))
  Fits (blob id) o = (o ≡ none) ⊎ ((b : BlobEntry) × (o ≡ some (j.blob_doc b)))
  Fits (chunk id) o =
      (o ≡ none) ⊎ ((c : ChunkEntry) × (o ≡ some (j.chunk_doc c)) × (pos 0 ≤ℤ c.ref_count))
  Fits (stats id) o =
      (o ≡ none) ⊎ ((st : NamespaceStats) × (o ≡ some (j.stats_doc st)) × (st.namespace_id ≡ id))

  pub Fits-none : (k : Key) → Fits k none
  Fits-none (ns id) = inl refl
  Fits-none (ref n k) = inl refl
  Fits-none (blob id) = inl refl
  Fits-none (chunk id) = inl refl
  Fits-none (stats id) = inl refl

  -- A chunk of the namespace with a reference.
  abbrev pub Live : Bytes → Option V → Type 0
  Live ns_id o =
      (c : ChunkEntry) × (o ≡ some (j.chunk_doc c))
      × (c.namespace_id ≡ ns_id)
      × (pos 1 ≤ℤ c.ref_count)

module _ {S V : Type 0} {tx : Tx S V} {json : Json V} (t : IsTx tx) (j : IsJson json) where
  abbrev pub IsIndex : S → Type 0
  IsIndex s = (k : Key) → IsKey k → Fits j k (t.view (key_bytes k) s)

  pub stored_here :
      (k : Key) (v : V) (s : S) → t.view (key_bytes k) (t.stored (key_bytes k) v s) ≡ some v
  stored_here k v s =
      rw (t.view-stored (key_bytes k) (key_bytes k) v s, bytes_eq_refl (key_bytes k))

  other_key : (a b : Key) → IsKey a → IsKey b → a ≢ b → bytes_eq (key_bytes a) (key_bytes b) ≡ false
  other_key a b va vb n = elim (Bool-cases (bytes_eq (key_bytes a) (key_bytes b))) [
    | inl e ↦ absurd (n (key_bytes-injective a b va vb (bytes_eq_sound _ _ e)))
    | inr e ↦ e
  ]

  pub stored_other :
      (a b : Key) (v : V) (s : S)
      → IsKey a
      → IsKey b
      → a ≢ b
      → t.view (key_bytes b) (t.stored (key_bytes a) v s) ≡ t.view (key_bytes b) s
  stored_other a b v s va vb n =
      rw (t.view-stored (key_bytes b) (key_bytes a) v s, other_key a b va vb n)

  pub removed_other :
      (a b : Key) (s : S)
      → IsKey a
      → IsKey b
      → a ≢ b
      → t.view (key_bytes b) (t.removed (key_bytes a) s) ≡ t.view (key_bytes b) s
  removed_other a b s va vb n =
      rw (t.view-removed (key_bytes b) (key_bytes a) s, other_key a b va vb n)

  -- What holds of the old value and of the new one holds after the write.
  pub stored_keeps :
      (P : Option V → Type 0) (k q : Bytes) (v : V) (s : S)
      → P (some v)
      → P (t.view q s)
      → P (t.view q (t.stored k v s))
  stored_keeps P k q v s new old = elim (Bool-cases (bytes_eq k q)) [
    | inl e ↦ subst P (sym (t.view-stored q k v s ∙ rw e refl)) new
    | inr e ↦ subst P (sym (t.view-stored q k v s ∙ rw e refl)) old
  ]

  pub stored-IsIndex :
      (k : Key) (v : V) (s : S)
      → IsKey k
      → Fits j k (some v)
      → IsIndex s
      → IsIndex (t.stored (key_bytes k) v s)
  stored-IsIndex k v s vk fits w q vq = elim (Bool-cases (bytes_eq (key_bytes k) (key_bytes q))) [
    | inl e ↦
        let same = key_bytes-injective k q vk vq (bytes_eq_sound _ _ e) in
        subst (Fits j q) (sym (t.view-stored (key_bytes q) (key_bytes k) v s ∙ rw e refl))
          (subst (λ (x : Key). Fits j x (some v)) same fits)
    | inr e ↦
        subst (Fits j q) (sym (t.view-stored (key_bytes q) (key_bytes k) v s ∙ rw e refl)) (w q vq)
  ]

  pub removed-IsIndex : (k : Key) (s : S) → IsIndex s → IsIndex (t.removed (key_bytes k) s)
  removed-IsIndex k s w q vq = elim (Bool-cases (bytes_eq (key_bytes k) (key_bytes q))) [
    | inl e ↦
        subst (Fits j q) (sym (t.view-removed (key_bytes q) (key_bytes k) s ∙ rw e refl))
          (Fits-none j q)
    | inr e ↦
        subst (Fits j q) (sym (t.view-removed (key_bytes q) (key_bytes k) s ∙ rw e refl)) (w q vq)
  ]
