-- ===== src/Index/Memory/Scan.antt =====
-- MemoryBackend.Scan (index.go): bytes.HasPrefix, sort.Strings and the pairs that it calls back
-- with, in their order.
use blobs.Base.{Bool, true, false, ◌&&◌, ◌||◌, ◌==◌, ltb, if◌then◌else◌, List, [], ◌∷◌, none, some}
use blobs.Base.Bytes.{Bytes}
use blobs.Errors.{Result, ok, closed, ◌>>◌, refuse_if}
use blobs.Index.Table.{Table, lookup}
use blobs.Index.Memory.{MemoryBackend}

unfoldable pub has_prefix : Bytes → Bytes → Bool
has_prefix k [] = true
has_prefix [] (y ∷ p) = false
has_prefix (x ∷ k) (y ∷ p) = (x == y) && has_prefix k p

-- Go's order of strings, by their bytes.
unfoldable pub less : Bytes → Bytes → Bool
less a [] = false
less [] (y ∷ b) = true
less (x ∷ a) (y ∷ b) = ltb x y || ((x == y) && less a b)

-- sort.Strings.
unfoldable pub insert_key : Bytes → List Bytes → List Bytes
insert_key k [] = k ∷ []
insert_key k (q ∷ ks) = let later = q ∷ insert_key k ks in if less k q then k ∷ q ∷ ks else later

unfoldable pub sort_keys : List Bytes → List Bytes
sort_keys [] = []
sort_keys (k ∷ ks) = insert_key k (sort_keys ks)

module _ {V : Type 0} where
  -- The loop over the map.
  unfoldable pub keys_with : Bytes → Table V → List Bytes
  keys_with p [] = []
  keys_with p ((k, v) ∷ r) = let rest = keys_with p r in if has_prefix k p then k ∷ rest else rest

  -- The loop over the keys, which are all keys of the map.
  unfoldable pub pairs_at : List Bytes → Table V → Table V
  pairs_at [] t = []
  pairs_at (k ∷ ks) t =
      let rest = pairs_at ks t in elim (lookup k t) [ none ↦ rest | some v ↦ (k, v) ∷ rest ]

  unfoldable pub mem_scan : Bytes → MemoryBackend V → Result (Table V)
  mem_scan p m = do
    refuse_if m.is_closed closed
    ok (pairs_at (sort_keys (keys_with p m.entries)) m.entries)
