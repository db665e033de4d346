-- ===== src/Index/Table.antt =====
-- Go's map[string]T as an association list, by the bytes of its keys.
use blobs.Base.{
  ◌≡◌, refl, if◌then◌else◌, List, [], ◌∷◌, Option, none, some, arith, bytes_eq, bytes_eq_iff,
}
use blobs.Base.Bytes.{Bytes}

abbrev pub Table : Type 0 → Type 0
Table V = List (Bytes × V)

module _ {V : Type 0} where
  unfoldable pub lookup : Bytes → Table V → Option V
  lookup k [] = none
  lookup k ((q, v) ∷ r) = if bytes_eq q k then some v else lookup k r

  unfoldable pub insert : Bytes → V → Table V → Table V
  insert k v [] = (k, v) ∷ []
  insert k v ((q, w) ∷ r) =
      let later = (q, w) ∷ insert k v r in if bytes_eq q k then (k, v) ∷ r else later

  unfoldable pub erase : Bytes → Table V → Table V
  erase k [] = []
  erase k ((q, v) ∷ r) = let rest = erase k r in if bytes_eq q k then rest else (q, v) ∷ rest

  pub lookup-insert :
      (q k : Bytes) (v : V) (t : Table V)
      → lookup q (insert k v t) ≡ (if bytes_eq k q then some v else lookup q t)
  unfolding lookup insert
  lookup-insert q k v [] = refl
  lookup-insert q k v ((j, w) ∷ r) =
      ground (arith, lookup-insert q k v r, bytes_eq_iff j k, bytes_eq_iff k q, bytes_eq_iff j q)

  pub lookup-erase :
      (q k : Bytes) (t : Table V)
      → lookup q (erase k t) ≡ (if bytes_eq k q then none else lookup q t)
  unfolding lookup erase
  lookup-erase q k [] = ground arith
  lookup-erase q k ((j, w) ∷ r) =
      ground (arith, lookup-erase q k r, bytes_eq_iff j k, bytes_eq_iff k q, bytes_eq_iff j q)
