-- ===== src/Index/Memory/Scanned.antt =====
-- What MemoryBackend.Scan (index.go) calls back with.
use blobs.Base.{
  ◌≡◌, refl, ap, ◌∙◌, inl, inr, Bool, true, false, ◌||◌, if◌then◌else◌, List, [], ◌∷◌, none, some,
  arith, All, map, bytes_eq, bytes_eq_iff, Bool-cases, Option-cases,
}
use blobs.Base.Bytes.{Bytes}
use blobs.Errors.{ok}
use blobs.Index.Table.{Table, lookup, insert, erase, lookup-insert, lookup-erase}
use blobs.Index.Memory.{MemoryBackend, MemTx, copy, erase_all, commit}
use blobs.Index.Memory.Scan.{has_prefix, less, insert_key, sort_keys, keys_with, pairs_at, mem_scan}

-- The order is strict, transitive and total.
less_trans : (a b c : Bytes) → less a b ≡ true → less b c ≡ true → less a c ≡ true
unfolding less
less_trans a b [] h i = i
less_trans a [] (z ∷ c) h i = absurd (ground (arith, h))
less_trans [] (y ∷ b) (z ∷ c) h i = refl
less_trans (x ∷ a) (y ∷ b) (z ∷ c) h i = ground (arith, less_trans a b c)

less_total : (a b : Bytes) → less a b ≡ false → less b a ≡ false → a ≡ b
unfolding less
less_total [] [] h i = refl
less_total (x ∷ a) [] h i = absurd (ground (arith, i))
less_total [] (y ∷ b) h i = absurd (ground (arith, h))
less_total (x ∷ a) (y ∷ b) h i = ground (arith, h, i, less_total a b)

less_flip : (a b : Bytes) → less a b ≡ false → bytes_eq b a ≡ false → less b a ≡ true
less_flip a b h i = elim (Bool-cases (less b a)) [
  | inl e ↦ e
  | inr e ↦ absurd (ground (arith, bytes_eq_iff b a, less_total a b h e))
]

-- Keys in their order, each once.
abbrev pub Ascending : List Bytes → Type 0
Ascending [] = Unit {0}
Ascending (k ∷ ks) = All (λ q. less k q ≡ true) ks × Ascending ks

unfoldable pub has_key : Bytes → List Bytes → Bool
has_key q [] = false
has_key q (k ∷ ks) = bytes_eq k q || has_key q ks

pub All-insert_key {ℓ} :
    (P : Bytes → Type ℓ) (k : Bytes) (ks : List Bytes) → P k → All P ks → All P (insert_key k ks)
unfolding insert_key
All-insert_key P k [] h a = (h, tt)
All-insert_key P k (q ∷ ks) h a = elim (Bool-cases (less k q)) [
  | inl e ↦ rw e (h, a)
  | inr e ↦ rw e (a.0, All-insert_key P k ks h a.1)
]

above_trans :
    (k q : Bytes) (ks : List Bytes)
    → less k q ≡ true
    → All (λ x. less q x ≡ true) ks
    → All (λ x. less k x ≡ true) ks
above_trans k q [] h a = tt
above_trans k q (x ∷ ks) h a = (less_trans k q x h a.0, above_trans k q ks h a.1)

insert_key-Ascending :
    (k : Bytes) (ks : List Bytes)
    → has_key k ks ≡ false
    → Ascending ks
    → Ascending (insert_key k ks)
unfolding insert_key has_key
insert_key-Ascending k [] h a = (tt, tt)
insert_key-Ascending k (q ∷ ks) h a = elim (Bool-cases (less k q)) [
  | inl e ↦ rw e ((e, above_trans k q ks e a.0), a)
  | inr e ↦ rw e (
    All-insert_key (λ x. less q x ≡ true) k ks (less_flip k q e (ground (arith, h))) a.0,
    insert_key-Ascending k ks (ground (arith, h)) a.1,
  )
]

has_key-insert_key :
    (q k : Bytes) (ks : List Bytes) → has_key q (insert_key k ks) ≡ (bytes_eq k q || has_key q ks)
unfolding insert_key has_key
has_key-insert_key q k [] = refl
has_key-insert_key q k (x ∷ ks) = ground (arith, has_key-insert_key q k ks)

pub has_key-sort_keys : (q : Bytes) (ks : List Bytes) → has_key q (sort_keys ks) ≡ has_key q ks
unfolding sort_keys has_key
has_key-sort_keys q [] = refl
has_key-sort_keys q (k ∷ ks) =
    has_key-insert_key q k (sort_keys ks)
    ∙ ap (λ (b : Bool). bytes_eq k q || b) (has_key-sort_keys q ks)

module _ {V : Type 0} where
  -- A map holds each key once.
  abbrev pub IsMap : Table V → Type 0
  IsMap [] = Unit {0}
  IsMap ((k, v) ∷ r) = (lookup k r ≡ none) × IsMap r

  insert-IsMap : (k : Bytes) (v : V) (t : Table V) → IsMap t → IsMap (insert k v t)
  unfolding insert lookup
  insert-IsMap k v [] m = (refl, tt)
  insert-IsMap k v ((q, w) ∷ r) m = elim (Bool-cases (bytes_eq q k)) [
    | inl e ↦ rw e (ground (arith, m.0, bytes_eq_iff q k), m.1)
    | inr e ↦ rw e (
      ground (arith, m.0, lookup-insert q k v r, bytes_eq_iff q k, bytes_eq_iff k q),
      insert-IsMap k v r m.1,
    )
  ]

  erase-IsMap : (k : Bytes) (t : Table V) → IsMap t → IsMap (erase k t)
  unfolding erase
  erase-IsMap k [] m = tt
  erase-IsMap k ((q, w) ∷ r) m = elim (Bool-cases (bytes_eq q k)) [
    | inl e ↦ rw e (erase-IsMap k r m.1)
    | inr e ↦ rw e (ground (arith, m.0, lookup-erase q k r), erase-IsMap k r m.1)
  ]

  copy-IsMap : (w t : Table V) → IsMap t → IsMap (copy w t)
  unfolding copy
  copy-IsMap [] t m = m
  copy-IsMap ((k, v) ∷ r) t m = insert-IsMap k v (copy r t) (copy-IsMap r t m)

  erase_all-IsMap : (d : Table (Unit {0})) (t : Table V) → IsMap t → IsMap (erase_all d t)
  unfolding erase_all
  erase_all-IsMap [] t m = m
  erase_all-IsMap ((k, u) ∷ r) t m = erase-IsMap k (erase_all r t) (erase_all-IsMap r t m)

  pub has_key-keys_with :
      (q p : Bytes) (t : Table V)
      → has_key q (keys_with p t) ≡ elim (lookup q t) [ none ↦ false | some _ ↦ has_prefix q p ]
  unfolding keys_with has_key lookup
  has_key-keys_with q p [] = refl
  has_key-keys_with q p ((k, v) ∷ r) = ground (arith, has_key-keys_with q p r, bytes_eq_iff k q)

  keys_with-Ascending : (p : Bytes) (t : Table V) → IsMap t → Ascending (sort_keys (keys_with p t))
  unfolding keys_with sort_keys
  keys_with-Ascending p [] m = tt
  keys_with-Ascending p ((k, v) ∷ r) m = elim (Bool-cases (has_prefix k p)) [
    | inr e ↦ rw e (keys_with-Ascending p r m.1)
    | inl e ↦ rw e (
        insert_key-Ascending k (sort_keys (keys_with p r))
          (ground (arith, m.0, has_key-sort_keys k (keys_with p r), has_key-keys_with k p r))
          (keys_with-Ascending p r m.1))
  ]

  pub lookup-pairs_at :
      (q : Bytes) (ks : List Bytes) (t : Table V)
      → lookup q (pairs_at ks t) ≡ (if has_key q ks then lookup q t else none)
  unfolding pairs_at has_key lookup
  lookup-pairs_at q [] t = refl
  lookup-pairs_at q (k ∷ ks) t = ground (arith, lookup-pairs_at q ks t, bytes_eq_iff k q)

  abbrev pub keys_of : Table V → List Bytes
  keys_of t = map (λ e. e.0) t

  above-pairs_at :
      (k : Bytes) (ks : List Bytes) (t : Table V)
      → All (λ q. less k q ≡ true) ks
      → All (λ q. less k q ≡ true) (keys_of (pairs_at ks t))
  unfolding pairs_at
  above-pairs_at k [] t a = tt
  above-pairs_at k (q ∷ ks) t a = elim (Option-cases (lookup q t)) [
    | inl e ↦ rw (e, keys_of, All) (above-pairs_at k ks t a.1)
    | inr (v, e) ↦ rw (e, keys_of, All) (a.0, above-pairs_at k ks t a.1)
  ]

  pairs_at-Ascending :
      (ks : List Bytes) (t : Table V) → Ascending ks → Ascending (keys_of (pairs_at ks t))
  unfolding pairs_at
  pairs_at-Ascending [] t a = tt
  pairs_at-Ascending (k ∷ ks) t a = elim (Option-cases (lookup k t)) [
    | inl e ↦ rw (e, keys_of, Ascending) (pairs_at-Ascending ks t a.1)
    | inr (v, e) ↦
        rw (e, keys_of, Ascending) (above-pairs_at k ks t a.0, pairs_at-Ascending ks t a.1)
  ]

  -- The commit of a transaction keeps the map one.
  pub commit-IsMap : (t : MemTx V) → IsMap t.parent → IsMap (commit t)
  unfolding commit
  commit-IsMap t h =
      erase_all-IsMap t.deletes (copy t.writes t.parent) (copy-IsMap t.writes t.parent h)

  -- With a map that holds each key once, an open backend's Scan gives, of the map's entries, those
  -- whose keys have the prefix, each with the value that the map holds at its key, each once, and in
  -- the order of their keys.
  pub mem_scan_lem :
      (p : Bytes) (m : MemoryBackend V)
      → m.is_closed ≡ false
      → IsMap m.entries
      → (found : Table V) × (mem_scan p m ≡ ok found)
        × Ascending (keys_of found)
        × ((q : Bytes) → lookup q found ≡ (if has_prefix q p then lookup q m.entries else none))
  unfolding mem_scan
  mem_scan_lem p m o h =
      let ks = sort_keys (keys_with p m.entries) in
      (
        pairs_at ks m.entries,
        rw o refl,
        pairs_at-Ascending ks m.entries (keys_with-Ascending p m.entries h),
        λ q. ground (
          arith,
          lookup-pairs_at q ks m.entries,
          has_key-sort_keys q (keys_with p m.entries),
          has_key-keys_with q p m.entries,
        ),
      )
