-- ===== src/Store/Namespaces/Ciphers.antt =====
-- The key of an encrypted namespace is found again when its engine is opened.
use blobs.Base.{◌≡◌, refl, true, Option, some, length}
use blobs.Base.Bytes.{Bytes}
use blobs.Errors.{Result, ok}
use blobs.Encryption.{Aead, Cipher, new, unwrap_key, key_size, nonce_size}
use blobs.Encryption.Laws.{IsGcm, new_lem, unwrap_key-wrap_key}
use blobs.Object.{Namespace, EncryptionInfo}
use blobs.Index.Tx.{Tx, IsTx}
use blobs.Index.Json.{Json, IsJson}
use blobs.Index.Keys.{ns, key_bytes}
use blobs.Index.Records.{get_namespace, put_namespace}
use blobs.Index.Commit.Steps.{save_stores}
use blobs.Index.Commit.WellFormed.{stored_here}
use blobs.Store.Namespaces.{
  KeyProvider, Config, encryption_of, unwrap_cipher, cipher_of, resolve_cipher,
}

-- A key of 32 bytes of which crypto/aes makes a lawful AEAD.
pub record IsUsable (new_gcm : Bytes → Result Aead) (key : Bytes) (aead : Aead) : Type 0 where
  pub made : new_gcm key ≡ ok aead
  pub lawful : IsGcm aead
  pub key_len : length key ≡ key_size

-- A provider whose current key is still the key of its version.
pub record IsProvider (provider : KeyProvider) (master version : Bytes) : Type 0 where
  pub current : provider.current_key ≡ ok (master, version)
  pub kept : provider.key version ≡ ok master

module _ {S V : Type 0} {tx : Tx S V} {json : Json V} (t : IsTx tx) (j : IsJson json)
    (new_gcm : Bytes → Result Aead) where
  get_namespace-stored :
      (n : Namespace) (s : S)
      → get_namespace tx json n.id (t.stored (key_bytes (ns n.id)) (j.ns_doc n) s) ≡ ok n
  unfolding get_namespace
  get_namespace-stored n s =
      rw
        (t.get_some (key_bytes (ns n.id)) (t.stored (key_bytes (ns n.id)) (j.ns_doc n) s)
          (j.ns_doc n) (stored_here t j (ns n.id) (j.ns_doc n) s))
        (j.unmarshals_ns n)

  unwrapped :
      (cfg : Config) (provider : KeyProvider) (master dek : Bytes) (aead : Aead) (w version : Bytes)
      → cfg.key_provider ≡ some provider
      → provider.key version ≡ ok master
      → unwrap_key new_gcm master w ≡ ok dek
      → new new_gcm dek ≡ ok (record { aead = aead })
      → cipher_of new_gcm cfg
          (some (record { enabled = true; wrapped_dek = w; key_version = version }))
        ≡ ok (some (record { aead = aead }))
  unfolding cipher_of unwrap_cipher
  unwrapped cfg provider master dek aead w version has kept opened made =
      rw (has, unwrap_cipher) (rw (kept, opened, made) refl)

  resolved :
      (cfg : Config) (n : Namespace) (s : S) {c : Option Cipher}
      → cipher_of new_gcm cfg n.encryption ≡ ok c
      → resolve_cipher tx json new_gcm cfg n.id (t.stored (key_bytes (ns n.id)) (j.ns_doc n) s)
        ≡ ok c
  unfolding resolve_cipher
  resolved cfg n s h = rw (get_namespace-stored n s, resolve_cipher) h

  -- A namespace's key, wrapped by CreateNamespace and persisted with the namespace, gives the
  -- cipher of that key when the engine is opened, under a lawful AEAD, whatever nonce of 12 bytes
  -- was drawn, if the provider still has the master key of the stored version.
  pub resolve_cipher-encryption_of :
      (cfg : Config) (provider : KeyProvider) (master version dek nonce : Bytes)
      (master_aead dek_aead : Aead) (n : Namespace) (s : S)
      → cfg.key_provider ≡ some provider
      → IsProvider provider master version
      → IsUsable new_gcm master master_aead
      → IsUsable new_gcm dek dek_aead
      → length nonce ≡ nonce_size
      → (info : EncryptionInfo) × (s' : S) × (encryption_of new_gcm cfg (ok dek) (ok nonce)
          ≡ ok info)
        × (put_namespace tx json (record n { encryption = some info }) s ≡ ok s')
        × (resolve_cipher tx json new_gcm cfg n.id s' ≡ ok (some (record { aead = dek_aead })))
  unfolding encryption_of put_namespace
  resolve_cipher-encryption_of cfg provider master version dek nonce ma da n s has p um ud len =
      let (w, wrapped, w_len, opened) =
        unwrap_key-wrap_key new_gcm ma master um.made um.lawful um.key_len nonce dek len in
      let info : EncryptionInfo = record {
        enabled = true;
        wrapped_dek = w;
        key_version = version;
      } in
      let n' : Namespace = record n { encryption = some info } in
      let s' = t.stored (key_bytes (ns n.id)) (j.ns_doc n') s in
      (
        info,
        s',
        rw (has, encryption_of) (rw (p.current, wrapped) refl),
        save_stores tx json t (ns n.id) s json.marshal_ns n' (j.ns_doc n') (j.marshals_ns n'),
        resolved cfg n' s (
            unwrapped cfg provider master dek da w version has p.kept opened
              (new_lem new_gcm da dek ud.made ud.lawful ud.key_len)),
      )
