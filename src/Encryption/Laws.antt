-- ===== src/Encryption/Laws.antt =====
-- What sealing and key wrapping promise over a correct AEAD.
use blobs.Base.{
  ◌+◌, ◌-◌, ◌≡◌, refl, ◌∙◌, ap, [], ◌++◌, some, length, take, drop, arith, length-take, length-drop,
  length-append, drop-append, ltb, false, le→ltb, take-append-drop, take-append, drop_seam,
}
use blobs.Base.Bytes.{Bytes, slice_skip}
use blobs.Errors.{Result, ok, wrapped}
use blobs.Encryption.{
  Aead, Cipher, Sealed, nonce_size, tag_size, seal, open_sealed, new, wrap_key, unwrap_key,
  key_size, wrap_err,
}

-- What crypto/cipher documents of GCM: the standard sizes, a tag behind a ciphertext of the
-- plaintext's length, and a decryption that accepts exactly what encryption makes.
pub record IsGcm (a : Aead) : Type 0 where
  pub nonce_std : a.nonce_len ≡ nonce_size
  pub overhead_std : a.overhead ≡ tag_size
  pub sealed_len :
      (nonce plain aad : Bytes) → length (a.seal_all nonce plain aad) ≡ length plain + tag_size
  pub opens :
      (nonce plain aad : Bytes) → a.open_all nonce (a.seal_all nonce plain aad) aad ≡ some plain
  pub authentic :
      (nonce sealed aad plain : Bytes)
      → a.open_all nonce sealed aad ≡ some plain
      → sealed ≡ a.seal_all nonce plain aad

module _ (c : Cipher) (g : IsGcm c.aead) (nonce aad plain : Bytes)
    (n : length nonce ≡ nonce_size) where
  abbrev all : Bytes
  all = c.aead.seal_all nonce plain aad

  length_tag : length (drop (length all - tag_size) all) ≡ tag_size
  length_tag = omega (arith, length-drop (length all - tag_size) all, g.sealed_len nonce plain aad)

  open_sealed-seal :
      open_sealed c aad nonce (take (length all - tag_size) all) (drop (length all - tag_size) all)
      ≡ ok plain
  unfolding open_sealed
  open_sealed-seal =
      rw (n, length_tag, take-append-drop (length all - tag_size) all, g.opens nonce plain aad)

  -- Over a lawful AEAD and with a nonce of 12 bytes, sealing keeps the length, splits off a tag of
  -- 16 bytes, and opening gives the plaintext back.
  pub seal_lem :
      (s : Sealed) × (seal c (ok nonce) aad plain ≡ ok s)
      × (s.nonce ≡ nonce)
      × (length s.ciphertext ≡ length plain)
      × (length s.tag ≡ tag_size)
      × (open_sealed c aad s.nonce s.ciphertext s.tag ≡ ok plain)
  unfolding seal
  seal_lem = (
    record {
      nonce = nonce;
      ciphertext = take (length all - tag_size) all;
      tag = drop (length all - tag_size) all;
    },
    refl,
    refl,
    omega (arith, length-take (length all - tag_size) all, g.sealed_len nonce plain aad),
    length_tag,
    open_sealed-seal,
  )

-- Over a lawful AEAD, whatever Open accepts is what Seal makes of the plaintext that it returns, under the same nonce
-- and the same additional data.
pub open_sealed-ok :
    (c : Cipher) (aad nonce ciphertext tag plain : Bytes)
    → IsGcm c.aead
    → open_sealed c aad nonce ciphertext tag ≡ ok plain
    → seal c (ok nonce) aad plain
      ≡ ok (record { nonce = nonce; ciphertext = ciphertext; tag = tag })
unfolding open_sealed seal
open_sealed-ok c aad nonce ciphertext tag plain g h =
    let opened : c.aead.open_all nonce (ciphertext ++ tag) aad ≡ some plain = ground arith in
    let tag_len : length tag ≡ tag_size = ground arith in
    let whole = g.authentic nonce (ciphertext ++ tag) aad plain opened in
    let split : length (ciphertext ++ tag) - tag_size ≡ length ciphertext =
      omega (arith, length-append ciphertext tag) in
    rw (
      ← whole,
      split,
      take-append (length ciphertext) ciphertext tag refl,
      drop_seam (length ciphertext) ciphertext tag refl,
    )

module _ (new_gcm : Bytes → Result Aead) (aead : Aead) (key : Bytes) (made : new_gcm key ≡ ok aead)
    (g : IsGcm aead) (k : length key ≡ key_size) where
  pub new_lem : new new_gcm key ≡ ok (record { aead = aead })
  unfolding new
  new_lem = rw (k, made, g.nonce_std, g.overhead_std)

  -- The three parts of a wrapped key are found again by their lengths.
  unwrap_parts :
      (n t c : Bytes)
      → length n ≡ nonce_size
      → length t ≡ tag_size
      → unwrap_key new_gcm key (n ++ (t ++ c))
        ≡ wrap_err
            (open_sealed (record { aead = aead }) [] n c t)
            (wrapped "encryption: unwrap key")
  unfolding unwrap_key
  unwrap_parts n t c hn ht =
      let long : ltb (length (n ++ (t ++ c))) (nonce_size + tag_size) ≡ false =
        le→ltb _ _ (omega (arith, length-append {0})) in
      rw (
        long,
        new_lem,
        slice_skip nonce_size 0 tag_size n (t ++ c) hn,
        take-append 16 t c ht,
        take-append nonce_size n (t ++ c) hn,
        drop-append (nonce_size + tag_size) n (t ++ c) (omega arith),
        hn,
        drop_seam 16 t c ht,
      )

  -- Over a lawful AEAD, a wrapped key is unwrapped under the same master key of 32 bytes, whatever
  -- nonce of 12 bytes the random source gave.
  pub unwrap_key-wrap_key :
      (nonce dek : Bytes)
      → length nonce ≡ nonce_size
      → (w : Bytes) × (wrap_key new_gcm (ok nonce) key dek ≡ ok w)
        × (length w ≡ nonce_size + tag_size + length dek)
        × (unwrap_key new_gcm key w ≡ ok dek)
  unfolding wrap_key
  unwrap_key-wrap_key nonce dek n =
      let (s, sealed, nonce_is, cipher_len, tag_len, opened) =
        seal_lem (record { aead = aead }) g nonce [] dek n in
      let nonce_len = ap length nonce_is ∙ n in
      (
        s.nonce ++ (s.tag ++ s.ciphertext),
        rw (new_lem, sealed),
        omega (arith, length-append {0}),
        rw (unwrap_parts s.nonce s.tag s.ciphertext nonce_len tag_len, opened),
      )
