-- ===== src/Index/Memory/Complete.antt =====
-- MemoryBackend.Scan (index.go) is the Scan that the index relies on.
use mathlib.Core.List.{Memᴰ}
use mathlib.Core.List.Memᴰ
use blobs.Base.{
  ◌≡◌, refl, inl, inr, true, false, List, [], ◌∷◌, some, arith, All, map, bytes_eq, Bool-cases,
  Option-cases,
}
use blobs.Base.Bytes.{Bytes}
use blobs.Errors.{Result, ok, ◌>>=◌}
use blobs.Index.Table.{Table, lookup}
use blobs.Index.Memory.{MemTx, commit, mem_IsTx}
use blobs.Index.Memory.Scan.{has_prefix, sort_keys, keys_with, pairs_at, mem_scan}
use blobs.Index.Memory.Scanned.{
  All-insert_key, has_key-sort_keys, has_key-keys_with, lookup-pairs_at,
}
use blobs.Index.Scan.Backend.{IsScan}

All-sort_keys : (P : Bytes → Type 0) (ks : List Bytes) → All P ks → All P (sort_keys ks)
unfolding sort_keys
All-sort_keys P [] a = tt
All-sort_keys P (k ∷ ks) a = All-insert_key P k (sort_keys ks) a.0 (All-sort_keys P ks a.1)

module _ {V : Type 0} where
  abbrev pub values : Table V → List V
  values t = map (λ e. e.1) t

  -- A Scan once the transaction is committed.
  unfoldable pub scan_values : Bytes → MemTx V → Result (List V)
  scan_values p t = do
    found ← mem_scan p (record { entries = commit t; is_closed = false })
    ok (values found)

  keys_with_prefix : (p : Bytes) (t : Table V) → All (λ k. has_prefix k p ≡ true) (keys_with p t)
  unfolding keys_with
  keys_with_prefix p [] = tt
  keys_with_prefix p ((k, v) ∷ r) = elim (Bool-cases (has_prefix k p)) [
    | inl e ↦ rw e (e, keys_with_prefix p r)
    | inr e ↦ rw e (keys_with_prefix p r)
  ]

  -- Each pair is an entry of the map, at one of the keys.
  pairs_at-entries :
      (P : Bytes → Type 0) (ks : List Bytes) (t : Table V) (v : V)
      → All P ks
      → Memᴰ v (values (pairs_at ks t))
      → (q : Bytes) × P q × (lookup q t ≡ some v)
  unfolding pairs_at
  pairs_at-entries P [] t v a m = absurd (Memᴰ.not-nil m)
  pairs_at-entries P (k ∷ ks) t v a m = elim (Option-cases (lookup k t)) [
    | inl e ↦ pairs_at-entries P ks t v a.1 (rw (e, pairs_at, values) at m)
    | inr (w, e) ↦ elim (Memᴰ.cases_cons (rw (e, pairs_at, values) at m)) [
      | inl same ↦ (k, a.0, cc)
      | inr later ↦ pairs_at-entries P ks t v a.1 later
    ]
  ]

  lookup-values : (q : Bytes) (v : V) (t : Table V) → lookup q t ≡ some v → Memᴰ v (values t)
  unfolding lookup
  lookup-values q v [] h = absurd (ground (arith, h))
  lookup-values q v ((k, w) ∷ r) h = elim (Bool-cases (bytes_eq k q)) [
    | inl e ↦ Memᴰ.head (ground (arith, e, h))
    | inr e ↦ Memᴰ.tail (lookup-values q v r (ground (arith, e, h)))
  ]

  abbrev scanned : Bytes → Table V → Table V
  scanned p t = pairs_at (sort_keys (keys_with p t)) t

  scanned_complete :
      (p q : Bytes) (v : V) (t : Table V)
      → has_prefix q p ≡ true
      → lookup q t ≡ some v
      → lookup q (scanned p t) ≡ some v
  scanned_complete p q v t h e = ground (
    arith,
    h,
    e,
    lookup-pairs_at q (sort_keys (keys_with p t)) t,
    has_key-sort_keys q (keys_with p t),
    has_key-keys_with q p t,
  )

  -- The memory backend's Scan visits the values under the keys with the prefix, all of them.
  pub mem_IsScan : IsScan mem_IsTx scan_values
  unfolding scan_values mem_scan
  mem_IsScan = record {
    visited = λ p t. values (scanned p (commit t));
    scans = λ p t. refl;
    stored = λ p t v m.
        pairs_at-entries (λ k. has_prefix k p ≡ true) (sort_keys (keys_with p (commit t)))
          (commit t) v (All-sort_keys _ (keys_with p (commit t)) (keys_with_prefix p (commit t))) m;
    complete = λ p t q v h e.
        lookup-values q v (scanned p (commit t)) (scanned_complete p q v (commit t) h e);
  }
