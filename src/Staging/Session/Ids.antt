-- ===== src/Staging/Session/Ids.antt =====
-- Session IDs of staging.go: validateSessionID and isLowerHexLen.
use blobs.Base.{
  ℕ, ◌*◌, ◌≤◌, ◌≡◌, ◌↔◌, ◌⊎◌, inl, inr, Bool-cases, refl, Bool, true, not, ◌&&◌, ◌||◌, ◌==◌, leb,
  [], ◌∷◌, length, All, arith,
}
use blobs.Base.Bytes.{Bytes, IsByte}
use blobs.Volume.Address.{hex, hex_digit, length-hex}
use blobs.Errors.{Result, ok, failed, refuse_if, ◌>>◌}

-- sessionIDByteLen
abbrev pub session_id_byte_len : ℕ
session_id_byte_len = 16

unfoldable pub all_lower_hex : Bytes → Bool
all_lower_hex [] = true
all_lower_hex (c ∷ s) = ((leb 48 c && leb c 57) || (leb 97 c && leb c 102)) && all_lower_hex s

unfoldable pub is_lower_hex_len : Bytes → ℕ → Bool
is_lower_hex_len s expected_len = (length s == expected_len) && all_lower_hex s

unfoldable pub validate_session_id : Bytes → Result (Unit {0})
validate_session_id id =
    refuse_if (not (length id == session_id_byte_len * 2)) (failed "staging: invalid session id")
    >> refuse_if (not (is_lower_hex_len id (session_id_byte_len * 2)))
        (failed "staging: invalid session id")

-- A digit, or a letter from a to f.
abbrev pub IsLowerHex : ℕ → Type 0
IsLowerHex c = ((48 ≤ c) × (c ≤ 57)) ⊎ ((97 ≤ c) × (c ≤ 102))

all_lower_hex-IsLowerHex : (s : Bytes) → all_lower_hex s ≡ true → All IsLowerHex s
unfolding all_lower_hex
all_lower_hex-IsLowerHex [] h = tt
all_lower_hex-IsLowerHex (c ∷ s) h = (digit, all_lower_hex-IsLowerHex s (ground arith))
  where
    digit : IsLowerHex c
    digit = elim (Bool-cases (leb c 57)) [
      | inl low ↦ inl (ground (arith, low), ground (arith, low))
      | inr high ↦ inr (ground (arith, high), ground (arith, high))
    ]

all_lower_hex_from : (s : Bytes) → All IsLowerHex s → all_lower_hex s ≡ true
unfolding all_lower_hex
all_lower_hex_from [] v = refl
all_lower_hex_from (c ∷ s) (inl d, v) = ground (arith, d, all_lower_hex_from s v)
all_lower_hex_from (c ∷ s) (inr d, v) = ground (arith, d, all_lower_hex_from s v)

-- validateSessionID accepts the strings of thirty-two lower-case hexadecimal digits and no others,
-- so a session ID has no dot and no slash.
validate_session_id_iff :
    (id : Bytes) → (validate_session_id id ≡ ok tt) ↔ ((length id ≡ 32) × All IsLowerHex id)
unfolding validate_session_id is_lower_hex_len
validate_session_id_iff id = (
  λ h. (ground (arith, h), all_lower_hex-IsLowerHex id (ground (arith, h))),
  λ v. ground (arith, v.0, all_lower_hex_from id v.1),
)

hex-all_lower_hex : (bs : Bytes) → All IsByte bs → all_lower_hex (hex bs) ≡ true
unfolding hex all_lower_hex hex_digit
hex-all_lower_hex [] v = refl
hex-all_lower_hex (b ∷ bs) v = ground (arith, v.0, hex-all_lower_hex bs v.1)

-- The ID that newSessionID makes of sixteen random bytes is one that validateSessionID accepts.
pub validate_session_id-hex :
    (random : Bytes)
    → length random ≡ session_id_byte_len
    → All IsByte random
    → validate_session_id (hex random) ≡ ok tt
unfolding validate_session_id is_lower_hex_len
validate_session_id-hex random h v = ground (arith, length-hex random, hex-all_lower_hex random v)
