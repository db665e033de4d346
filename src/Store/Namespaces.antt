-- ===== src/Store/Namespaces.antt =====
-- Open, Close, CreateNamespace, DeleteNamespace and the opening of engines (store.go). The data
-- directory is given by the directories of its namespaces, AES-GCM is a parameter, and what the
-- random source gives is an argument. Config.Index is never nil here.
pub mod Ciphers
pub mod Created
mod Tests
use blobs.Base.{
  ℕ, Bool, true, false, ◌==◌, if◌then◌else◌, List, [], ◌∷◌, Option, none, some, length,
}
use blobs.Base.Bytes.{Bytes}
use blobs.Errors.{
  Error, Result, ok, err, failed, wrapped, already_exists, not_found, closed, is_not_found, ◌>>=◌,
}
use blobs.Encryption.{Aead, Cipher, new, wrap_key, unwrap_key, wrap_err}
use blobs.Object.{Namespace, NamespaceStats, EncryptionInfo, RefEntry}
use blobs.Object.NamespaceId.{validate_namespace_id}
use blobs.Step.{Step, ◌>>=◌ as ◌>>>◌, attempt, update, wrap_step}
use blobs.Index.Tx.{Tx}
use blobs.Index.Json.{Json}
use blobs.Index.Commit.{commit_delete}
use blobs.Index.Refs.{commit_update_ref_metadata}
use blobs.Index.Records.{get_namespace, put_namespace, delete_namespace, get_stats}
use blobs.Index.Scan.{list_namespaces, list_refs}
use blobs.Index.Table.{lookup, insert, erase}
use blobs.Store.Handle.{Store, begin_op}
use blobs.Store.Quota.{validate_key}
use blobs.Store.Recovery.{replay_wal}
use blobs.Volume.Engine.{Engine}
use blobs.Volume.Open.{Directory, open_volume}
use blobs.Volume.Options.{Options, validate}

pub record KeyProvider : Type 0 where
  pub current_key : Result (Bytes × Bytes)
  pub key : Bytes → Result Bytes

-- `disk` is what the data directory holds of a namespace.
pub record Config : Type 0 where
  pub data_dir : Bytes
  pub disk : Bytes → Directory
  pub options : Options
  pub key_provider : Option KeyProvider

module _ (new_gcm : Bytes → Result Aead) where
  -- The key of a new namespace, wrapped under the current master key.
  unfoldable pub encryption_of : Config → Result Bytes → Result Bytes → Result EncryptionInfo
  encryption_of cfg generated random = elim cfg.key_provider [
    | none ↦ err (failed "store: WithEncryption requires Config.KeyProvider to be set")
    | some provider ↦ do
      dek ← wrap_err generated (wrapped "store: generate namespace key")
      current ← wrap_err provider.current_key (wrapped "store: get current master key")
      sealed ←
          wrap_err (wrap_key new_gcm random current.0 dek) (wrapped "store: wrap namespace key")
      ok (record { enabled = true; wrapped_dek = sealed; key_version = current.1 })
  ]

  -- The cipher of an encrypted namespace.
  unfoldable pub unwrap_cipher : Option KeyProvider → EncryptionInfo → Result (Option Cipher)
  unwrap_cipher none info =
      err (failed "store: namespace is encrypted but Config.KeyProvider is not set")
  unwrap_cipher (some provider) info = do
    master ← wrap_err (provider.key info.key_version) (wrapped "store: resolve master key")
    dek ← wrap_err (unwrap_key new_gcm master info.wrapped_dek) (wrapped "store: unwrap DEK")
    c ← wrap_err (new new_gcm dek) (wrapped "store: init cipher")
    ok (some c)

  unfoldable pub cipher_of : Config → Option EncryptionInfo → Result (Option Cipher)
  cipher_of cfg none = ok none
  cipher_of cfg (some info) =
      let unwrapped = unwrap_cipher cfg.key_provider info in
      if info.enabled then unwrapped else ok none

module _ {S V : Type 0} (tx : Tx S V) (json : Json V) where
  -- The loop of DeleteNamespace over the references; one that is gone already is no error.
  unfoldable pub delete_refs : Bytes → List RefEntry → S → Step S (Unit {0})
  delete_refs ns_id [] s = (s, ok tt)
  delete_refs ns_id (r ∷ rs) s = elim (commit_delete tx json ns_id r.key s) [
    | ok s' ↦ delete_refs ns_id rs s'
    | err x ↦ elim (is_not_found x) [
      | true ↦ delete_refs ns_id rs s
      | false ↦ (s, err (wrapped "store: delete ref" x))
    ]
  ]

  unfoldable pub get_namespace_of : Bytes → Store S Engine → Result Namespace
  get_namespace_of ns_id st = do _ ← begin_op st; get_namespace tx json ns_id st.index

  unfoldable pub stats_of : Bytes → Store S Engine → Result NamespaceStats
  stats_of ns_id st = do _ ← begin_op st; get_stats tx json ns_id st.index

  -- Update; `custom` is the metadata by fmt.Sprint.
  unfoldable pub update_metadata :
      Bytes → Bytes → List (Bytes × Bytes) → ℕ → Store S Engine → Result (Store S Engine)
  update_metadata ns_id key custom now st = do
    _ ← validate_key key
    _ ← begin_op st
    s ← commit_update_ref_metadata tx json ns_id key custom now st.index
    ok (record st { index = s })

  -- Close; the error of the backend's Close is an argument. Every engine is closed, which gives no
  -- error where the disk gives none.
  unfoldable pub close_store : Result (Unit {0}) → Store S Engine → Step (Store S Engine) (Unit {0})
  close_store index_closed st =
      let shut : Store S Engine = record st { is_closed = true } in
      elim st.is_closed [
        | true ↦ (st, err closed)
        | false ↦ elim index_closed [
          | ok _ ↦ (shut, ok tt)
          | err x ↦ (shut, err (failed "store: close errors"))
        ]
      ]

  module _ (scan : Bytes → S → Result (List V)) where
    unfoldable pub list_namespaces_of : Store S Engine → Result (List Namespace)
    list_namespaces_of st = do _ ← begin_op st; list_namespaces tx json scan st.index

    -- DeleteNamespace; what it leaves of the engine is its directory.
    unfoldable pub drop_namespace : Bytes → Store S Engine → Step (Store S Engine) (Unit {0})
    drop_namespace ns_id st = elim (lookup ns_id st.engines) [
      | none ↦ (st, err (not_found ns_id []))
      | some e ↦
          let st₁ : Store S Engine = record st { engines = erase ns_id st.engines } in
          update st₁ (wrapped "store: list refs for deletion")
            (list_refs tx json scan ns_id [] st.index)
            λ refs.
              let (s, deleted) = delete_refs ns_id refs st.index in
              let st₂ : Store S Engine = record st₁ { index = s } in
              attempt st₂ deleted λ _.
                update st₂ (λ x. x) (delete_namespace tx json ns_id s)
                  λ s'. (record st₂ { index = s' }, ok tt)
    ]

  module _ (new_gcm : Bytes → Result Aead) (cfg : Config) where
    unfoldable pub resolve_cipher : Bytes → S → Result (Option Cipher)
    resolve_cipher ns_id s = do
      n ← wrap_err (get_namespace tx json ns_id s) (wrapped "store: get namespace for engine open")
      cipher_of new_gcm cfg n.encryption

    -- An engine is registered once its logs are replayed.
    unfoldable pub register_engine :
        Bytes → Store S Engine → Engine → Step S (Unit {0}) → Step (Store S Engine) (Unit {0})
    register_engine ns_id st e (s, err x) = (record st { index = s }, err (wrapped "replay WAL" x))
    register_engine ns_id st e (s, ok _) =
        (record st { index = s; engines = insert ns_id e st.engines }, ok tt)

    unfoldable pub open_engine : Bytes → Store S Engine → Step (Store S Engine) (Unit {0})
    open_engine ns_id st = attempt st (resolve_cipher ns_id st.index) λ cipher.
        attempt st (open_volume ns_id cfg.options cipher (cfg.disk ns_id))
          λ e. register_engine ns_id st e (replay_wal tx json e st.index)

    -- CreateNamespace; `encryption` is what WithEncryption makes, or the caller's value without it.
    unfoldable pub create_namespace :
        ℕ
        → Namespace
        → Result (Option EncryptionInfo)
        → Store S Engine
        → Step (Store S Engine) (Unit {0})
    create_namespace now n encryption st = attempt st (validate_namespace_id n.id) λ _.
        elim (get_namespace tx json n.id st.index) [
          | ok _ ↦ (st, err (already_exists n.id))
          | err x ↦ elim (is_not_found x) [
            | false ↦ (st, err (wrapped "store: check namespace" x))
            | true ↦ attempt st encryption λ info.
                update st (wrapped "store: persist namespace")
                  (put_namespace tx json (record n { created_at = now; encryption = info })
                    st.index)
                  λ s. open_engine n.id (record st { index = s })
          ]
        ]

    unfoldable pub open_engines : List Namespace → Store S Engine → Step (Store S Engine) (Unit {0})
    open_engines [] st = (st, ok tt)
    open_engines (n ∷ ns) st =
        wrap_step (wrapped "store: open engine") (open_engine n.id st) >>> λ st' _.
        open_engines ns st'

    -- Open; a store that fails to open is not used further.
    unfoldable pub open_store : (Bytes → S → Result (List V)) → S → Step (Store S Engine) (Unit {0})
    open_store scan s =
        let st : Store S Engine = record { is_closed = false; engines = []; index = s } in
        if length cfg.data_dir == 0
        then (st, err (failed "store: Config.DataDir must not be empty"))
        else (update st (wrapped "store") (validate cfg.options) λ _.
            update st (wrapped "store: list namespaces on open") (list_namespaces tx json scan s)
              λ namespaces. open_engines namespaces st)
