-- ===== src/Store/Namespaces/Tests.antt =====
-- Opening of a store and of an encrypted namespace, on the in-memory backend and with a stand-in
-- for AES-GCM.
use blobs.Base.{◌≡◌, refl, List, [], ◌∷◌, none, some, replicate, length, false}
use blobs.Base.Bytes.{Bytes}
use blobs.Base.Int.{pos}
use blobs.Encryption.Tests.{plain_aead, plain-IsGcm, nonce, key}
use blobs.Errors.{Result, ok}
use blobs.Index.Memory.{MemTx, mem_ops, mem_IsTx}
use blobs.Index.Records.{put_namespace}
use blobs.Index.Tests.{Doc, of_ns, doc_json, doc_IsJson, ref_tx, ref_tx-IsIndex, name}
use blobs.Object.{Namespace, EncryptionInfo}
use blobs.Store.Namespaces.{KeyProvider, Config, encryption_of, resolve_cipher, open_store}
use blobs.Store.Namespaces.Ciphers.{IsUsable, IsProvider, resolve_cipher-encryption_of}
use blobs.Store.Namespaces.Created.{IsOpened, open_store-IsOpened}

abbrev provider : KeyProvider
provider = record { current_key = ok (key, 1 ∷ []); key = λ version. ok key }

abbrev config : Config
config = record {
  data_dir = 47 ∷ [];
  disk = λ id. record { files = []; wals = []; dirty = false };
  options = record { page_size = pos 0; chunk_size = pos 0; max_segment_size = pos 0 };
  key_provider = some provider;
}

abbrev a_namespace : Namespace
a_namespace = record {
  id = name;
  display_name = [];
  created_at = 0;
  quota = none;
  custom = [];
  encryption = none;
}

abbrev dek : Bytes
dek = replicate 32 5

provides : IsProvider provider key (1 ∷ [])
provides = record { current = refl; kept = refl }

usable : (k : Bytes) → length k ≡ 32 → IsUsable (λ k. ok plain_aead) k plain_aead
usable k len = record { made = refl; lawful = plain-IsGcm; key_len = len }

resolve_cipher-encryption_of_example :
    (info : EncryptionInfo) × (s' : MemTx Doc) × (encryption_of
        (λ k. ok plain_aead)
        config
        (ok dek)
        (ok nonce)
      ≡ ok info)
    × (put_namespace mem_ops doc_json (record a_namespace { encryption = some info }) ref_tx
        ≡ ok s')
    × (resolve_cipher mem_ops doc_json (λ k. ok plain_aead) config name s'
        ≡ ok (some (record { aead = plain_aead })))
resolve_cipher-encryption_of_example =
    resolve_cipher-encryption_of mem_IsTx doc_IsJson (λ k. ok plain_aead) config provider key
      (1 ∷ []) dek nonce plain_aead plain_aead a_namespace ref_tx refl provides (usable key refl)
      (usable dek refl) refl

abbrev scan_one : Bytes → MemTx Doc → Result (List Doc)
scan_one prefix s = ok (of_ns a_namespace ∷ [])

open_store-IsOpened_example :
    IsOpened mem_IsTx doc_IsJson
      (λ k. ok plain_aead)
      config
      scan_one
      ref_tx
      (open_store mem_ops doc_json (λ k. ok plain_aead) config scan_one ref_tx)
open_store-IsOpened_example =
    open_store-IsOpened mem_IsTx doc_IsJson (λ k. ok plain_aead) config scan_one ref_tx
      ref_tx-IsIndex
