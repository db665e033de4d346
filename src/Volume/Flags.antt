-- ===== src/Volume/Flags.antt =====
-- PageFlags and the magicFlags word of a page header (volume.go).
use Prim.Native.Nat.{bit_and, bit_or}
use blobs.Base.{
  ℕ, zero, suc, ◌+◌, ◌-◌, ◌/◌, ◌^◌, ◌<◌, ◌≡◌, refl, Bool, true, false, not, ◌==◌, if◌then◌else◌,
  arith,
}
use blobs.Errors.{Result, ok, err, failed}

abbrev pub magic_sentinel : ℕ
magic_sentinel = 0xB10B5E00

abbrev pub magic_mask : ℕ
magic_mask = 0xFFFFFF00

abbrev pub flags_mask : ℕ
flags_mask = 0xFF

abbrev pub flag_deleted : ℕ
flag_deleted = 1

abbrev pub flag_last_chunk : ℕ
flag_last_chunk = 2

abbrev pub flag_compressed : ℕ
flag_compressed = 4

-- A PageFlags is a uint8.
abbrev pub IsFlags : ℕ → Type 0
IsFlags f = f < 256

unfoldable pub is_deleted : ℕ → Bool
is_deleted f = not (bit_and f flag_deleted == 0)

unfoldable pub is_last_chunk : ℕ → Bool
is_last_chunk f = not (bit_and f flag_last_chunk == 0)

unfoldable pub set_flag : ℕ → ℕ → ℕ
set_flag f flag = bit_or f flag

-- `f &^ flag`, which clears the bits that the two share.
unfoldable pub clear_flag : ℕ → ℕ → ℕ
clear_flag f flag = f - bit_and f flag

unfoldable pub encode_magic_flags : ℕ → ℕ
encode_magic_flags flags = bit_or magic_sentinel flags

unfoldable pub decode_magic_flags : ℕ → Result ℕ
decode_magic_flags v =
    if bit_and v magic_mask == magic_sentinel
    then ok (bit_and v flags_mask)
    else err (failed "volume: bad page magic")

-- Two functions agree on the values below a bound, by evaluation.
agree : (f g : ℕ → ℕ) → ℕ → Bool
agree f g zero = true
agree f g (suc bound) = if f bound == g bound then agree f g bound else false

module _ (f g : ℕ → ℕ) where
  agree_below : (bound x : ℕ) → x < bound → agree f g bound ≡ true → f x ≡ g x
  unfolding agree
  agree_below zero x lt h = absurd (omega arith)
  agree_below (suc bound) x lt h = ground (arith, agree_below bound x)

  table : agree f g 256 ≡ true → (x : ℕ) → IsFlags x → f x ≡ g x
  table h x lt = agree_below 256 x lt h

sentinel_kept : (f : ℕ) → IsFlags f → bit_and (bit_or magic_sentinel f) magic_mask ≡ magic_sentinel
unfolding agree
sentinel_kept = table _ _ refl

flags_kept : (f : ℕ) → IsFlags f → bit_and (bit_or magic_sentinel f) flags_mask ≡ f
unfolding agree
flags_kept = table _ _ refl

pub encode_magic_flags-lt : (f : ℕ) → IsFlags f → encode_magic_flags f < 256 ^ 4
unfolding agree encode_magic_flags
encode_magic_flags-lt f h = omega (arith, sum f h)
  where
    sum : (f : ℕ) → IsFlags f → bit_or magic_sentinel f ≡ magic_sentinel + f
    sum = table _ _ refl

pub decode-encode_magic_flags :
    (f : ℕ) → IsFlags f → decode_magic_flags (encode_magic_flags f) ≡ ok f
unfolding encode_magic_flags decode_magic_flags
decode-encode_magic_flags f h = rw (sentinel_kept f h, flags_kept f h)

-- `Set` turns on its own bit and no other of the three.
pub is_deleted-set : (f : ℕ) → IsFlags f → is_deleted (set_flag f flag_deleted) ≡ true
unfolding agree is_deleted set_flag
is_deleted-set f h =
    ground (arith, table (λ x. bit_and (bit_or x flag_deleted) flag_deleted) (λ x. 1) refl f h)

pub set_deleted-IsFlags : (f : ℕ) → IsFlags f → IsFlags (set_flag f flag_deleted)
unfolding agree set_flag
set_deleted-IsFlags f h = lt_of_div _ (table (λ x. bit_or x flag_deleted / 256) (λ _. 0) refl f h)
  where
    lt_of_div : (n : ℕ) → n / 256 ≡ 0 → n < 256
    lt_of_div n e = omega arith
