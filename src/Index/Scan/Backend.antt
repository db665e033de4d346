-- ===== src/Index/Scan/Backend.antt =====
-- What the index relies on in a backend's Scan (index.go), and prefixes of keys.
use mathlib.Core.List.{Memᴰ}
use blobs.Base.{◌≡◌, refl, true, List, [], ◌∷◌, ◌++◌, some, arith}
use blobs.Base.Bytes.{Bytes}
use blobs.Errors.{Result, ok}
use blobs.Index.Tx.{Tx, IsTx}
use blobs.Index.Memory.Scan.{has_prefix}

pub has_prefix-append : (p r : Bytes) → has_prefix (p ++ r) p ≡ true
unfolding has_prefix
has_prefix-append [] r = refl
has_prefix-append (x ∷ p) r = ground (arith, has_prefix-append p r)

pub has_prefix_split : (k p : Bytes) → has_prefix k p ≡ true → (r : Bytes) × (k ≡ p ++ r)
unfolding has_prefix
has_prefix_split k [] h = (k, refl)
has_prefix_split [] (y ∷ p) h = absurd (ground (arith, h))
has_prefix_split (x ∷ k) (y ∷ p) h =
    let (r, e) = has_prefix_split k p (ground (arith, h)) in (r, ground (arith, h, e))

module _ {S V : Type 0} {tx : Tx S V} (t : IsTx tx) where
  -- What Backend says of Scan: it visits the keys with the prefix, all of them.
  pub record IsScan (scan : Bytes → S → Result (List V)) : Type 0 where
    pub visited : Bytes → S → List V
    pub scans : (p : Bytes) (s : S) → scan p s ≡ ok (visited p s)
    pub stored :
        (p : Bytes) (s : S) (v : V)
        → Memᴰ v (visited p s)
        → (q : Bytes) × (has_prefix q p ≡ true) × (t.view q s ≡ some v)
    pub complete :
        (p : Bytes) (s : S) (q : Bytes) (v : V)
        → has_prefix q p ≡ true
        → t.view q s ≡ some v
        → Memᴰ v (visited p s)
