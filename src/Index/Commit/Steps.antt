-- ===== src/Index/Commit/Steps.antt =====
-- The reads and writes of a transaction, over a lawful backend and a lawful encoding.
use blobs.Base.{◌≡◌, none, some}
use blobs.Errors.{Result, ok, is_not_found}
use blobs.Index.Tx.{Tx, IsTx, found}
use blobs.Index.Json.{Json}
use blobs.Index.Keys.{Key, key_bytes}
use blobs.Index.Commit.{find, save}

module _ {S V : Type 0} (tx : Tx S V) (json : Json V) (t : IsTx tx) {A : Type 0} (k : Key)
    (s : S) where
  pub find-none :
      (unmarshal : V → Result A)
      → t.view (key_bytes k) s ≡ none
      → find tx json unmarshal k s ≡ ok none
  unfolding find found is_not_found
  find-none unmarshal h = rw (t.get_none (key_bytes k) s h)

  pub find-some :
      (unmarshal : V → Result A) (v : V) (a : A)
      → t.view (key_bytes k) s ≡ some v
      → unmarshal v ≡ ok a
      → find tx json unmarshal k s ≡ ok (some a)
  unfolding find found
  find-some unmarshal v a h u = rw (t.get_some (key_bytes k) s v h, found, u)

  pub save_stores :
      (marshal : A → Result V) (a : A) (v : V)
      → marshal a ≡ ok v
      → save tx json marshal k a s ≡ ok (t.stored (key_bytes k) v s)
  unfolding save
  save_stores marshal a v m = rw m (t.put_stores (key_bytes k) v s)
