-- ===== src/Index/Memory.antt =====
-- MemoryBackend and memTx (index.go). A value is never changed in place, so the copies that the
-- code makes of it are the value itself; the lock makes each call a step.
pub mod Complete
pub mod Scan
pub mod Scanned
use blobs.Base.{
  ◌≡◌, refl, Bool, true, false, if◌then◌else◌, List, [], ◌∷◌, Option, none, some, map, arith,
  bytes_eq,
}
use blobs.Base.Bytes.{Bytes}
use blobs.Errors.{Result, ok, err, not_found, closed, ◌>>◌, refuse_if}
use blobs.Index.Table.{Table, lookup, insert, erase, lookup-insert, lookup-erase}
use blobs.Index.Tx.{Tx, IsTx}

pub record MemoryBackend (V : Type 0) : Type 0 where
  pub entries : Table V
  pub is_closed : Bool

-- memTx; `deletes` is a set of keys.
pub record MemTx (V : Type 0) : Type 0 where
  pub parent : Table V
  pub writes : Table V
  pub deletes : Table (Unit {0})

module _ {V : Type 0} where
  unfoldable pub new_memory_backend : MemoryBackend V
  new_memory_backend = record { entries = []; is_closed = false }

  -- A Get outside a transaction.
  unfoldable pub mem_get : Bytes → MemoryBackend V → Result V
  mem_get k m = do
    refuse_if m.is_closed closed
    elim (lookup k m.entries) [ none ↦ err (not_found [] []) | some v ↦ ok v ]

  unfoldable pub mem_put : Bytes → V → MemoryBackend V → Result (MemoryBackend V)
  mem_put k v m = do refuse_if m.is_closed closed; ok (record m { entries = insert k v m.entries })

  unfoldable pub mem_delete : Bytes → MemoryBackend V → Result (MemoryBackend V)
  mem_delete k m = do refuse_if m.is_closed closed; ok (record m { entries = erase k m.entries })

  -- A missing key leaves its slot empty.
  unfoldable pub mem_get_multi : List Bytes → MemoryBackend V → Result (List (Option V))
  mem_get_multi ks m = do refuse_if m.is_closed closed; ok (map (λ k. lookup k m.entries) ks)

  unfoldable pub mem_close : MemoryBackend V → MemoryBackend V
  mem_close m = record m { is_closed = true }

  unfoldable pub tx_put : Bytes → V → MemTx V → MemTx V
  tx_put k v t = record t { writes = insert k v t.writes; deletes = erase k t.deletes }

  unfoldable pub tx_get : Bytes → MemTx V → Result V
  tx_get k t = elim (lookup k t.deletes) [
    | some _ ↦ err (not_found [] [])
    | none ↦ elim (lookup k t.writes) [
      | some v ↦ ok v
      | none ↦ elim (lookup k t.parent) [ none ↦ err (not_found [] []) | some v ↦ ok v ]
    ]
  ]

  unfoldable pub tx_delete : Bytes → MemTx V → MemTx V
  tx_delete k t = record t { writes = erase k t.writes; deletes = insert k tt t.deletes }

  -- maps.Copy.
  unfoldable pub copy : Table V → Table V → Table V
  copy [] t = t
  copy ((k, v) ∷ r) t = insert k v (copy r t)

  unfoldable pub erase_all : Table (Unit {0}) → Table V → Table V
  erase_all [] t = t
  erase_all ((k, _) ∷ r) t = erase k (erase_all r t)

  unfoldable pub commit : MemTx V → Table V
  commit t = erase_all t.deletes (copy t.writes t.parent)

  -- Tx: a failing function leaves the backend as it was.
  unfoldable pub mem_tx :
      {A : Type 0} → MemoryBackend V → (MemTx V → Result (A × MemTx V)) → MemoryBackend V × Result A
  mem_tx m fn =
      if m.is_closed
      then (m, err closed)
      else elim (fn (record { parent = m.entries; writes = []; deletes = [] })) [
        | err e ↦ (m, err e)
        | ok (a, t) ↦ (record m { entries = commit t }, ok a)
      ]

  lookup-copy :
      (q : Bytes) (w t : Table V)
      → lookup q (copy w t) ≡ elim (lookup q w) [ some v ↦ some v | none ↦ lookup q t ]
  unfolding lookup copy
  lookup-copy q [] t = refl
  lookup-copy q ((k, v) ∷ r) t = ground (arith, lookup-insert q k v (copy r t), lookup-copy q r t)

  lookup-erase_all :
      (q : Bytes) (d : Table (Unit {0})) (t : Table V)
      → lookup q (erase_all d t) ≡ elim (lookup q d) [ some _ ↦ none | none ↦ lookup q t ]
  unfolding lookup erase_all
  lookup-erase_all q [] t = refl
  lookup-erase_all q ((k, u) ∷ r) t =
      ground (arith, lookup-erase q k (erase_all r t), lookup-erase_all q r t)

  lookup-commit :
      (q : Bytes) (t : MemTx V)
      → lookup q (commit t) ≡ elim (lookup q t.deletes) [
        | some _ ↦ none
        | none ↦ elim (lookup q t.writes) [ some v ↦ some v | none ↦ lookup q t.parent ]
      ]
  unfolding commit
  lookup-commit q t = ground (
    arith,
    lookup-erase_all q t.deletes (copy t.writes t.parent),
    lookup-copy q t.writes t.parent,
  )

  pub tx_get-commit :
      (q : Bytes) (t : MemTx V)
      → tx_get q t ≡ elim (lookup q (commit t)) [ none ↦ err (not_found [] []) | some v ↦ ok v ]
  unfolding tx_get
  tx_get-commit q t = ground (arith, lookup-commit q t)

  abbrev pub mem_ops : Tx (MemTx V) V
  mem_ops = record {
    get = tx_get;
    put = λ k v t. ok (tx_put k v t);
    delete = λ k t. ok (tx_delete k t);
  }

  pub lookup_put :
      (q k : Bytes) (v : V) (t : MemTx V)
      → lookup q (commit (tx_put k v t)) ≡ (if bytes_eq k q then some v else lookup q (commit t))
  unfolding tx_put
  lookup_put q k v t = ground (
    arith,
    lookup-commit q (tx_put k v t),
    lookup-commit q t,
    lookup-erase q k t.deletes,
    lookup-insert q k v t.writes,
  )

  pub lookup_delete :
      (q k : Bytes) (t : MemTx V)
      → lookup q (commit (tx_delete k t)) ≡ (if bytes_eq k q then none else lookup q (commit t))
  unfolding tx_delete
  lookup_delete q k t = ground (
    arith,
    lookup-commit q (tx_delete k t),
    lookup-commit q t,
    lookup-insert q k tt t.deletes,
    lookup-erase q k t.writes,
  )

  -- A transaction and its commit agree: what a read in it finds at a key is what the backend's map
  -- holds there once the transaction is committed, and each of its writes and deletes changes that
  -- map at its own key and nowhere else.
  pub commit_lem :
      (q k : Bytes) (v : V) (t : MemTx V)
      → (tx_get q t ≡ elim (lookup q (commit t)) [ none ↦ err (not_found [] []) | some w ↦ ok w ])
        × (lookup q (commit (tx_put k v t))
            ≡ (if bytes_eq k q then some v else lookup q (commit t)))
        × (lookup q (commit (tx_delete k t)) ≡ (if bytes_eq k q then none else lookup q (commit t)))
  commit_lem q k v t = (tx_get-commit q t, lookup_put q k v t, lookup_delete q k t)

  pub get_missing :
      (k : Bytes) (s : MemTx V) → lookup k (commit s) ≡ none → tx_get k s ≡ err (not_found [] [])
  get_missing k s h = rw (tx_get-commit k s, h)

  pub get_present :
      (k : Bytes) (s : MemTx V) (v : V) → lookup k (commit s) ≡ some v → tx_get k s ≡ ok v
  get_present k s v h = rw (tx_get-commit k s, h)

  -- The interface that the index takes.
  abbrev pub mem_IsTx : IsTx mem_ops
  mem_IsTx = record {
    view = λ k t. lookup k (commit t);
    stored = tx_put;
    removed = tx_delete;
    get_none = get_missing;
    get_some = get_present;
    put_stores = λ k v s. refl;
    delete_removes = λ k s. refl;
    view-stored = λ q k v s. lookup_put q k v s;
    view-removed = λ q k s. lookup_delete q k s;
  }
