-- ===== src/Volume/Address.antt =====
-- Content addresses (blobIDFromDigest and chunkIDFromContent of volume.go): "sha256:" and the
-- digest in hexadecimal.
use blobs.Base.{
  ℕ, ◌+◌, ◌-◌, ◌*◌, ◌/◌, ◌%◌, ◌≡◌, refl, ltb, if◌then◌else◌, [], ◌∷◌, ◌++◌, length, All, arith,
}
use blobs.Base.Bytes.{Bytes, IsByte, text}

unfoldable pub hex_digit : ℕ → ℕ
hex_digit n = if ltb n 10 then b'0' + n else b'a' + (n - 10)

-- hex.Encode: the high half of each byte first.
unfoldable pub hex : Bytes → Bytes
unfolding hex_digit
hex [] = []
hex (b ∷ bs) = hex_digit (b / 16) ∷ hex_digit (b % 16) ∷ hex bs

unfoldable pub blob_id_from_digest : Bytes → Bytes
blob_id_from_digest digest = text "sha256:" ++ hex digest

unfoldable pub chunk_id_from_content : Bytes → Bytes
chunk_id_from_content digest = text "sha256:" ++ hex digest

pub length-hex : (bs : Bytes) → length (hex bs) ≡ 2 * length bs
unfolding hex
length-hex [] = refl
length-hex (b ∷ bs) = omega (arith, length-hex bs)

hex-injective : (xs ys : Bytes) → All IsByte xs → All IsByte ys → hex xs ≡ hex ys → xs ≡ ys
unfolding hex
hex-injective [] [] ha hb h = refl
hex-injective [] (b ∷ ys) ha hb h = cc
hex-injective (a ∷ xs) [] ha hb h = cc
hex-injective (a ∷ xs) (b ∷ ys) ha hb h = ground (arith, hex-injective xs ys)

-- Two digests, as lists of bytes, have one address only if they are one digest.
chunk_id_from_content-injective :
    (xs ys : Bytes)
    → All IsByte xs
    → All IsByte ys
    → chunk_id_from_content xs ≡ chunk_id_from_content ys
    → xs ≡ ys
unfolding chunk_id_from_content
chunk_id_from_content-injective xs ys ha hb h = hex-injective xs ys ha hb (ground arith)

-- A chunk's address is as long as a canonical BlobID.
pub length-chunk_id_from_content :
    (digest : Bytes) → length digest ≡ 32 → length (chunk_id_from_content digest) ≡ 71
unfolding chunk_id_from_content
length-chunk_id_from_content digest h = omega (arith, length-hex digest)
