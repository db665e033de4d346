-- ===== src/Index/Keys.antt =====
-- The key constructors of index.go, as one data type of keys and their bytes.
use blobs.Base.{ℕ, ◌≡◌, ◌≢◌, [], ◌∷◌, ◌++◌, All, arith}
use blobs.Base.Bytes.{Bytes, text}

pub data Key : Type 0 where
  ns : Bytes → Key
  ref : Bytes → Bytes → Key
  blob : Bytes → Key
  chunk : Bytes → Key
  stats : Bytes → Key

abbrev pub prefix_ref : Bytes → Bytes
prefix_ref ns_id = text "ref:" ++ (ns_id ++ (b':' ∷ []))

unfoldable pub key_bytes : Key → Bytes
key_bytes (ns id) = text "ns:" ++ id
key_bytes (ref ns_id key) = text "ref:" ++ (ns_id ++ (b':' ∷ key))
key_bytes (blob id) = text "blob:" ++ id
key_bytes (chunk id) = text "chunk:" ++ id
key_bytes (stats id) = text "stats:" ++ id

-- Namespace identifiers hold no colon, by the pattern that ValidateNamespaceID checks.
abbrev pub IsKey : Key → Type 0
IsKey (ref ns_id key) = All (λ (b : ℕ). b ≢ b':') ns_id
IsKey _ = Unit {0}

split_colon :
    (xs ys k l : Bytes)
    → All (λ (b : ℕ). b ≢ b':') xs
    → All (λ (b : ℕ). b ≢ b':') ys
    → xs ++ (b':' ∷ k) ≡ ys ++ (b':' ∷ l)
    → (xs ≡ ys) × (k ≡ l)
split_colon [] [] k l hx hy h = ground arith
split_colon [] (y ∷ ys) k l hx hy h = ground arith
split_colon (x ∷ xs) [] k l hx hy h = ground arith
split_colon (x ∷ xs) (y ∷ ys) k l hx hy h = ground (arith, split_colon xs ys k l)

-- Two keys of the index, whose namespaces have no colon where a key follows them, have the same
-- bytes only if they are of one kind and have the same parts.
pub key_bytes-injective : (a b : Key) → IsKey a → IsKey b → key_bytes a ≡ key_bytes b → a ≡ b
unfolding key_bytes
key_bytes-injective (ref n k) (ref m l) va vb h = ground (arith, split_colon n m k l)
key_bytes-injective a b va vb h = ground arith
