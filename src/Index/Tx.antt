-- ===== src/Index/Tx.antt =====
-- The Tx interface of a backend, and what the index relies on.
use blobs.Base.{◌≡◌, if◌then◌else◌, Option, none, some, bytes_eq, []}
use blobs.Base.Bytes.{Bytes}
use blobs.Errors.{Result, ok, err, not_found, is_not_found}

-- `S` is the state of a transaction, `V` what a value is.
pub record Tx (S V : Type 0) : Type 0 where
  pub get : Bytes → S → Result V
  pub put : Bytes → V → S → Result S
  pub delete : Bytes → S → Result S

-- What the interface's comments say: Get fails with NotFoundError exactly on a missing key, and
-- within a transaction sees its writes.
pub record IsTx {S V : Type 0} (tx : Tx S V) : Type 0 where
  pub view : Bytes → S → Option V
  pub stored : Bytes → V → S → S
  pub removed : Bytes → S → S
  pub get_none : (k : Bytes) (s : S) → view k s ≡ none → tx.get k s ≡ err (not_found [] [])
  pub get_some : (k : Bytes) (s : S) (v : V) → view k s ≡ some v → tx.get k s ≡ ok v
  pub put_stores : (k : Bytes) (v : V) (s : S) → tx.put k v s ≡ ok (stored k v s)
  pub delete_removes : (k : Bytes) (s : S) → tx.delete k s ≡ ok (removed k s)
  pub view-stored :
      (q k : Bytes) (v : V) (s : S)
      → view q (stored k v s) ≡ (if bytes_eq k q then some v else view q s)
  pub view-removed :
      (q k : Bytes) (s : S) → view q (removed k s) ≡ (if bytes_eq k q then none else view q s)

-- `raw, err := tx.Get(k); if err != nil && !IsNotFound(err) { return err }`.
unfoldable pub found {ℓ} : {A : Type ℓ} → Result A → Result (Option A)
found (ok v) = ok (some v)
found (err e) = if is_not_found e then ok none else err e
