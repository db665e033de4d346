-- ===== src/Encryption/Tests.antt =====
-- Sealing over a stand-in for AES-GCM, whose ciphertext is the plaintext and whose tag is zeros.
use blobs.Base.{
  ◌-◌, ◌≡◌, refl, sym, ◌∙◌, [], ◌∷◌, ◌++◌, Option, none, some, length, take, drop, replicate, arith,
  length-append, take-append, drop_seam, take-append-drop, if◌then◌else◌, bytes_eq, bytes_eq_refl,
  bytes_eq_sound, Bool-cases, inl, inr,
}
use blobs.Base.Bytes.{Bytes}
use blobs.Errors.{ok}
use blobs.Encryption.{Aead, Sealed, seal, open_sealed, tag_size}
use blobs.Encryption.Laws.{IsGcm, seal_lem, open_sealed-ok}

abbrev pub zero_tag : Bytes
zero_tag = replicate 16 0

abbrev pub open_plain : Bytes → Option Bytes
open_plain sealed =
    if bytes_eq (drop (length sealed - 16) sealed) zero_tag
    then some (take (length sealed - 16) sealed)
    else none

abbrev pub plain_aead : Aead
plain_aead = record {
  nonce_len = 12;
  overhead = 16;
  seal_all = λ nonce plain aad. plain ++ zero_tag;
  open_all = λ nonce sealed aad. open_plain sealed;
}

opens_plain : (plain : Bytes) → open_plain (plain ++ zero_tag) ≡ some plain
opens_plain plain =
    let back : length (plain ++ zero_tag) - 16 ≡ length plain =
      omega (arith, length-append plain zero_tag) in
    rw (
      back,
      drop_seam (length plain) plain zero_tag refl,
      take-append (length plain) plain zero_tag refl,
      bytes_eq_refl zero_tag,
    )

plain_authentic :
    (sealed plain : Bytes) → open_plain sealed ≡ some plain → sealed ≡ plain ++ zero_tag
plain_authentic sealed plain h =
    let n = length sealed - 16 in
    elim (Bool-cases (bytes_eq (drop n sealed) zero_tag)) [
      | inl e ↦
          let tag = bytes_eq_sound (drop n sealed) zero_tag e in
          let front : take n sealed ≡ plain = ground (arith, h, e) in
          sym (take-append-drop n sealed) ∙ rw (front, tag) refl
      | inr e ↦ absurd (ground (arith, h, e))
    ]

pub plain-IsGcm : IsGcm plain_aead
plain-IsGcm = record {
  nonce_std = refl;
  overhead_std = refl;
  sealed_len = λ nonce plain aad. length-append plain zero_tag;
  opens = λ nonce plain aad. opens_plain plain;
  authentic = λ nonce sealed aad plain. plain_authentic sealed plain;
}

abbrev pub nonce : Bytes
nonce = replicate 12 7

abbrev pub key : Bytes
key = replicate 32 9

seal_lem_example :
    (s : Sealed) × (seal (record { aead = plain_aead }) (ok nonce) (1 ∷ []) (2 ∷ 3 ∷ []) ≡ ok s)
    × (s.nonce ≡ nonce)
    × (length s.ciphertext ≡ 2)
    × (length s.tag ≡ tag_size)
    × (open_sealed (record { aead = plain_aead }) (1 ∷ []) s.nonce s.ciphertext s.tag
        ≡ ok (2 ∷ 3 ∷ []))
seal_lem_example =
    seal_lem (record { aead = plain_aead }) plain-IsGcm nonce (1 ∷ []) (2 ∷ 3 ∷ []) refl

opened_plain :
    open_sealed (record { aead = plain_aead }) (1 ∷ []) nonce (2 ∷ 3 ∷ []) zero_tag
    ≡ ok (2 ∷ 3 ∷ [])
unfolding open_sealed
opened_plain = rw (opens_plain (2 ∷ 3 ∷ []))

open_sealed-ok_example :
    seal (record { aead = plain_aead }) (ok nonce) (1 ∷ []) (2 ∷ 3 ∷ [])
    ≡ ok (record { nonce = nonce; ciphertext = 2 ∷ 3 ∷ []; tag = zero_tag })
unfolding open_sealed
open_sealed-ok_example =
    open_sealed-ok (record { aead = plain_aead }) (1 ∷ []) nonce (2 ∷ 3 ∷ []) zero_tag (2 ∷ 3 ∷ [])
      plain-IsGcm opened_plain
