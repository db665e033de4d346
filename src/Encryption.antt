-- ===== src/Encryption.antt =====
-- encryption/encryption.go: sealing of chunk payloads and wrapping of namespace keys.
-- AES-GCM and the random source are not code of the repository: crypto/aes with crypto/cipher is
-- `new_gcm`, a parameter, and what io.ReadFull(rand.Reader, …) gives is an argument.
pub mod Laws
pub mod Tests
use blobs.Base.{
  ℕ, ◌+◌, ◌-◌, ◌≡◌, Bool, not, ◌==◌, ltb, if◌then◌else◌, ◌++◌, [], Option, none, some, length, take,
  drop,
}
use blobs.Base.Bytes.{Bytes, slice}
use blobs.Errors.{Result, ok, err, failed, wrapped, Error, ◌>>=◌, ◌>>◌, refuse_if}

abbrev pub key_size : ℕ
key_size = 32

abbrev pub nonce_size : ℕ
nonce_size = 12

abbrev pub tag_size : ℕ
tag_size = 16

-- cipher.AEAD, with the arguments nonce, text and additional data.
pub record Aead : Type 0 where
  pub nonce_len : ℕ
  pub overhead : ℕ
  pub seal_all : Bytes → Bytes → Bytes → Bytes
  pub open_all : Bytes → Bytes → Bytes → Option Bytes

pub record Cipher : Type 0 where
  pub aead : Aead

pub record Sealed : Type 0 where
  pub nonce : Bytes
  pub ciphertext : Bytes
  pub tag : Bytes

-- `fmt.Errorf("…: %w", err)` around a failed call.
abbrev pub wrap_err {ℓ} : {A : Type ℓ} → Result A → (Error → Error) → Result A
wrap_err (ok a) f = ok a
wrap_err (err e) f = err (f e)

unfoldable pub seal : Cipher → Result Bytes → Bytes → Bytes → Result Sealed
seal c random aad plaintext = do
  nonce ← wrap_err random (wrapped "encryption: generate nonce")
  let sealed = c.aead.seal_all nonce plaintext aad
  let split = length sealed - tag_size
  ok (record { nonce = nonce; ciphertext = take split sealed; tag = drop split sealed })

unfoldable pub open_sealed : Cipher → Bytes → Bytes → Bytes → Bytes → Result Bytes
open_sealed c aad nonce ciphertext tag = do
  refuse_if (not (length nonce == nonce_size)) (failed "encryption: nonce must be 12 bytes")
  refuse_if (not (length tag == tag_size)) (failed "encryption: tag must be 16 bytes")
  elim (c.aead.open_all nonce (ciphertext ++ tag) aad) [
    | none ↦ err (failed "encryption: authentication failed (corrupted or tampered data)")
    | some plaintext ↦ ok plaintext
  ]

module _ (new_gcm : Bytes → Result Aead) where
  unfoldable pub new : Bytes → Result Cipher
  new key = do
    refuse_if (not (length key == key_size)) (failed "encryption: key must be 32 bytes")
    aead ← new_gcm key
    refuse_if (not (aead.nonce_len == nonce_size)) (failed "encryption: unexpected GCM nonce size")
    refuse_if (not (aead.overhead == tag_size)) (failed "encryption: unexpected GCM tag size")
    ok (record { aead = aead })

  unfoldable pub wrap_key : Result Bytes → Bytes → Bytes → Result Bytes
  wrap_key random master_key dek = do
    c ← wrap_err (new master_key) (wrapped "encryption: wrap key")
    s ← wrap_err (seal c random [] dek) (wrapped "encryption: wrap key")
    ok (s.nonce ++ (s.tag ++ s.ciphertext))

  unfoldable pub unwrap_key : Bytes → Bytes → Result Bytes
  unwrap_key master_key w = do
    refuse_if (ltb (length w) (nonce_size + tag_size))
        (failed "encryption: unwrap key: wrapped key too short")
    c ← wrap_err (new master_key) (wrapped "encryption: unwrap key")
    let nonce = take nonce_size w
    let tag = slice nonce_size tag_size w
    let ciphertext = drop (nonce_size + tag_size) w
    wrap_err (open_sealed c [] nonce ciphertext tag) (wrapped "encryption: unwrap key")
