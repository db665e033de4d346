-- ===== src/Store/Namespaces/Created.antt =====
-- What CreateNamespace and Open leave in the index and among the engines.
use blobs.Base.{
  ℕ, ◌==◌, ◌≡◌, refl, sym, subst, ◌∙◌, inl, inr, false, List, [], ◌∷◌, All, Option, some, length,
  map, bytes_eq, bytes_eq_refl, Bool-cases,
}
use blobs.Base.Bytes.{Bytes}
use blobs.Errors.{Error, Result, ok, err, wrapped, ok_inj, is_not_found, Result-cases}
use blobs.Encryption.{Aead}
use blobs.Object.{Namespace, EncryptionInfo}
use blobs.Object.NamespaceId.{validate_namespace_id}
use blobs.Step.{Step, ◌>>=◌, attempt, update, wrap_step, attempt-cases, update-cases}
use blobs.Index.Table.{lookup, insert, lookup-insert}
use blobs.Index.Tx.{Tx, IsTx}
use blobs.Index.Json.{Json, IsJson}
use blobs.Index.Keys.{ns}
use blobs.Index.Commit.Chunks.{Kept, Kept-refl, Kept-trans, Kept-store}
use blobs.Index.Commit.Steps.{save_stores}
use blobs.Index.Commit.WellFormed.{IsIndex}
use blobs.Index.Records.{get_namespace, put_namespace}
use blobs.Index.Scan.{list_namespaces}
use blobs.Store.Handle.{Store}
use blobs.Store.Namespaces.{
  Config, resolve_cipher, register_engine, open_engine, create_namespace, open_engines, open_store,
}
use blobs.Store.Recovery.Logs.{replay_wal_lem}
use blobs.Volume.Engine.{Engine}
use blobs.Volume.Open.{open_volume}
use blobs.Volume.Options.{validate}

module _ {S V : Type 0} {tx : Tx S V} {json : Json V} (t : IsTx tx) (j : IsJson json)
    (new_gcm : Bytes → Result Aead) (cfg : Config) where
  abbrev pub HasEngine : Store S Engine → Bytes → Type 0
  HasEngine st id = (e : Engine) × (lookup id st.engines ≡ some e)

  -- The index is well-formed with its references as they were, and every engine is there still.
  abbrev pub Extends : Store S Engine → Store S Engine → Type 0
  Extends st st' = Kept t j st.index st'.index × ((id : Bytes) → HasEngine st id → HasEngine st' id)

  -- Whatever the call gives, the store is extended, and by these engines where it succeeds.
  abbrev pub Opens : List Bytes → Store S Engine → Step (Store S Engine) (Unit {0}) → Type 0
  Opens ids st (st', ok u) = Extends st st' × All (HasEngine st') ids
  Opens ids st (st', err x) = Extends st st'

  Extends-refl : (st : Store S Engine) → IsIndex t j st.index → Extends st st
  Extends-refl st w = (Kept-refl t j st.index w, λ id h. h)

  Extends-trans : (a b c : Store S Engine) → Extends a b → Extends b c → Extends a c
  Extends-trans a b c x y =
      (Kept-trans t j a.index b.index c.index x.0 y.0, λ id h. y.1 id (x.1 id h))

  HasEngine-insert :
      (ns_id q : Bytes) (e : Engine) (st : Store S Engine) (s : S)
      → HasEngine st q
      → HasEngine (record st { index = s; engines = insert ns_id e st.engines }) q
  HasEngine-insert ns_id q e st s (old, h) = elim (Bool-cases (bytes_eq ns_id q)) [
    | inl here ↦ (e, lookup-insert q ns_id e st.engines ∙ rw here refl)
    | inr other ↦ (old, lookup-insert q ns_id e st.engines ∙ rw other h)
  ]

  open_engine-Opens :
      (ns_id : Bytes) (st : Store S Engine)
      → IsIndex t j st.index
      → Opens (ns_id ∷ []) st (open_engine tx json new_gcm cfg ns_id st)
  unfolding open_engine register_engine
  open_engine-Opens ns_id st w =
      attempt-cases (Opens (ns_id ∷ []) st) st (resolve_cipher tx json new_gcm cfg ns_id st.index) _
        (λ x. Extends-refl st w)
        λ cipher resolved.
          attempt-cases (Opens (ns_id ∷ []) st) st
            (open_volume ns_id cfg.options cipher (cfg.disk ns_id)) _ (λ x. Extends-refl st w)
            λ e opened.
              let (s, run, w', kept, all) = replay_wal_lem t j e st.index w in
              subst
                (λ (out : Step S (Unit {0})).
                  Opens (ns_id ∷ []) st (register_engine tx json new_gcm cfg ns_id st e out))
                (sym run)
                (
                  ((w', kept.0), λ q h. HasEngine-insert ns_id q e st s h),
                  ((e, lookup-insert ns_id ns_id e st.engines ∙ rw (bytes_eq_refl ns_id) refl), tt),
                )

  Opens-after :
      (ids : List Bytes) (a b : Store S Engine) (m : Step (Store S Engine) (Unit {0}))
      → Extends a b
      → Opens ids b m
      → Opens ids a m
  Opens-after ids a b (c, ok u) x (y, all) = (Extends-trans a b c x y, all)
  Opens-after ids a b (c, err e) x y = Extends-trans a b c x y

  put_namespace-Kept :
      (n : Namespace) (s s' : S) → IsIndex t j s → put_namespace tx json n s ≡ ok s' → Kept t j s s'
  unfolding put_namespace
  put_namespace-Kept n s s' w h =
      let d = j.ns_doc n in
      let stored = save_stores tx json t (ns n.id) s json.marshal_ns n d (j.marshals_ns n) in
      subst (Kept t j s) (ok_inj (sym stored ∙ h))
        (Kept-store t j (ns n.id) d s tt (λ m q e. cc) (inr (n, refl)) w)

  -- CreateNamespace of an identifier that is not taken.
  store_namespace :
      (now : ℕ) (n : Namespace) (encryption : Result (Option EncryptionInfo)) (st : Store S Engine)
      → IsIndex t j st.index
      → Opens (n.id ∷ []) st (
          attempt st encryption λ info.
            update st
              (wrapped "store: persist namespace")
              (put_namespace tx json (record n { created_at = now; encryption = info }) st.index)
              λ s. open_engine tx json new_gcm cfg n.id (record st { index = s }))
  store_namespace now n encryption st w =
      attempt-cases (Opens (n.id ∷ []) st) st encryption _ (λ x. Extends-refl st w)
        λ info made.
          let n' : Namespace = record n { created_at = now; encryption = info } in
          update-cases (Opens (n.id ∷ []) st) st (wrapped "store: persist namespace")
            (put_namespace tx json n' st.index) _ (λ x. Extends-refl st w)
            λ s put.
              let kept = put_namespace-Kept n' st.index s w put in
              let st' : Store S Engine = record st { index = s } in
              Opens-after (n.id ∷ []) st st' (open_engine tx json new_gcm cfg n.id st')
                (kept, λ id h. h) (open_engine-Opens n.id st' kept.0)

  -- CreateNamespace on a well-formed index, also where it fails: the index is well-formed, every
  -- reference is as it was, and every open namespace is open still. Where it succeeds, the new
  -- namespace is open too.
  pub create_namespace-Opens :
      (now : ℕ) (n : Namespace) (encryption : Result (Option EncryptionInfo)) (st : Store S Engine)
      → IsIndex t j st.index
      → Opens (n.id ∷ []) st (create_namespace tx json new_gcm cfg now n encryption st)
  unfolding create_namespace
  create_namespace-Opens now n encryption st w =
      attempt-cases (Opens (n.id ∷ []) st) st (validate_namespace_id n.id) _
        (λ x. Extends-refl st w)
        λ u valid. elim (Result-cases (get_namespace tx json n.id st.index)) [
          | inl (m, there) ↦ rw (there, create_namespace) (Extends-refl st w)
          | inr (x, missing) ↦ elim (Bool-cases (is_not_found x)) [
            | inr other ↦ rw (missing, create_namespace, other) (Extends-refl st w)
            | inl gone ↦
                rw (missing, create_namespace, gone) (store_namespace now n encryption st w)
          ]
        ]

  Opens-both :
      (n : Namespace) (ids : List Bytes) (a b : Store S Engine)
      (m : Step (Store S Engine) (Unit {0}))
      → Extends a b
      → HasEngine b n.id
      → Opens ids b m
      → Opens (n.id ∷ ids) a m
  Opens-both n ids a b (c, ok u) x here (y, all) = (Extends-trans a b c x y, (y.1 n.id here, all))
  Opens-both n ids a b (c, err e) x here y = Extends-trans a b c x y

  Opens-then :
      (n : Namespace) (ids : List Bytes) (st : Store S Engine)
      (m : Step (Store S Engine) (Unit {0}))
      (f : Store S Engine → Unit {0} → Step (Store S Engine) (Unit {0}))
      → Opens (n.id ∷ []) st m
      → ((st' : Store S Engine) → IsIndex t j st'.index → Opens ids st' (f st' tt))
      → Opens (n.id ∷ ids) st (m >>= f)
  Opens-then n ids st (st', err x) f h k = h
  Opens-then n ids st (st', ok u) f (x, (here, e)) k =
      Opens-both n ids st st' (f st' tt) x here (k st' x.0.0)

  wrapped-Opens :
      (ids : List Bytes) (st : Store S Engine) (wrap : Error → Error)
      (m : Step (Store S Engine) (Unit {0}))
      → Opens ids st m
      → Opens ids st (wrap_step wrap m)
  wrapped-Opens ids st wrap (st', ok u) h = h
  wrapped-Opens ids st wrap (st', err x) h = h

  open_engines-Opens :
      (namespaces : List Namespace) (st : Store S Engine)
      → IsIndex t j st.index
      → Opens (map (λ n. n.id) namespaces) st (open_engines tx json new_gcm cfg namespaces st)
  unfolding open_engines
  open_engines-Opens [] st w = (Extends-refl st w, tt)
  open_engines-Opens (n ∷ rest) st w =
      Opens-then n (map (λ n. n.id) rest) st
        (wrap_step (wrapped "store: open engine") (open_engine tx json new_gcm cfg n.id st))
        (λ st' u. open_engines tx json new_gcm cfg rest st')
        (wrapped-Opens (n.id ∷ []) st (wrapped "store: open engine")
          (open_engine tx json new_gcm cfg n.id st) (open_engine-Opens n.id st w))
        (λ st' w'. open_engines-Opens rest st' w')

  -- Whatever Open gives: the index is well-formed with its references as they were, and where it
  -- succeeds, every namespace that the index lists has its engine.
  abbrev pub IsOpened :
      (Bytes → S → Result (List V)) → S → Step (Store S Engine) (Unit {0}) → Type 0
  IsOpened scan s (st, ok u) =
      Kept t j s st.index
      × ((namespaces : List Namespace) × (list_namespaces tx json scan s ≡ ok namespaces)
          × All (HasEngine st) (map (λ n. n.id) namespaces))
  IsOpened scan s (st, err x) = Kept t j s st.index

  finished-IsOpened :
      (scan : Bytes → S → Result (List V)) (s : S) (namespaces : List Namespace)
      (st : Store S Engine) (m : Step (Store S Engine) (Unit {0}))
      → st.index ≡ s
      → list_namespaces tx json scan s ≡ ok namespaces
      → Opens (map (λ n. n.id) namespaces) st m
      → IsOpened scan s m
  finished-IsOpened scan s namespaces st (st', ok u) same listed (x, all) =
      (subst (λ (z : S). Kept t j z st'.index) same x.0, (namespaces, listed, all))
  finished-IsOpened scan s namespaces st (st', err e) same listed x =
      subst (λ (z : S). Kept t j z st'.index) same x.0

  -- Open over a well-formed index, whatever the log files of the namespaces hold and wherever it
  -- stops: the index is well-formed with every reference as it was. Where Open succeeds, every
  -- namespace that the index lists has an engine.
  pub open_store-IsOpened :
      (scan : Bytes → S → Result (List V)) (s : S)
      → IsIndex t j s
      → IsOpened scan s (open_store tx json new_gcm cfg scan s)
  unfolding open_store
  open_store-IsOpened scan s w = elim (Bool-cases (length cfg.data_dir == 0)) [
    | inl no_dir ↦ rw no_dir (Kept-refl t j s w)
    | inr dir ↦
        let st : Store S Engine = record { is_closed = false; engines = []; index = s } in
        rw dir (
          update-cases (IsOpened scan s) st (wrapped "store") (validate cfg.options) _
            (λ x. Kept-refl t j s w)
            λ u valid.
              update-cases (IsOpened scan s) st (wrapped "store: list namespaces on open")
                (list_namespaces tx json scan s) _ (λ x. Kept-refl t j s w)
                λ namespaces listed.
                  finished-IsOpened scan s namespaces st
                    (open_engines tx json new_gcm cfg namespaces st) refl listed
                    (open_engines-Opens namespaces st w))
  ]
