-- ===== src/Base/Bytes.antt =====
-- Byte strings: little-endian fields (encoding/binary) and reads of a part.
use Prim.Native.Char.{code}
use Prim.Native.String.{String}
use Prim.Native.Nat.{ℕ, zero, suc, ◌+◌, ◌*◌, ◌/◌, ◌%◌, ◌^◌, ◌≤◌, ◌<◌}
use mathlib.Core.Path.{◌≡◌, refl, sym, ap, ◌∙◌}
use mathlib.Core.List.{List, [], ◌∷◌, ◌++◌, append_assoc}
use native.Mathlib.Omega.{arith}
use native.Mathlib.Nat.{pow-suc}
use blobs.Base.Lists.{
  length, take, drop, All, drop-append, drop-append_left, drop_seam, take-append, take-append_left,
  length-drop,
}

abbrev pub Bytes : Type 0
Bytes = List ℕ

-- The bytes of an ASCII text.
abbrev pub text : String → Bytes
text String.[] = []
text (String.◌∷◌ c s) = code c ∷ text s

abbrev pub IsByte : ℕ → Type 0
IsByte b = b < 256

-- binary.LittleEndian.PutUint16/32/64 and AppendUint16/32/64, at 2, 4 and 8 bytes.
unfoldable pub put_uint : ℕ → ℕ → Bytes
put_uint zero v = []
put_uint (suc n) v = (v % 256) ∷ put_uint n (v / 256)

-- binary.LittleEndian.Uint16/32/64 of as many bytes.
unfoldable pub uint : Bytes → ℕ
uint [] = 0
uint (b ∷ bs) = b + 256 * uint bs

pub length-put_uint : (n v : ℕ) → length (put_uint n v) ≡ n
unfolding put_uint
length-put_uint zero v = refl
length-put_uint (suc n) v = ap suc (length-put_uint n (v / 256))

-- A field that fits its width is read back.
pub uint-put_uint : (n v : ℕ) → v < 256 ^ n → uint (put_uint n v) ≡ v
unfolding put_uint uint
uint-put_uint zero v h = omega arith
uint-put_uint (suc n) v h =
    omega (arith, pow-suc 256 n, uint-put_uint n (v / 256) (omega (arith, pow-suc 256 n)))

pub put_uint-IsByte : (n v : ℕ) → All IsByte (put_uint n v)
unfolding put_uint
put_uint-IsByte zero v = tt
put_uint-IsByte (suc n) v = (omega arith, put_uint-IsByte n (v / 256))

-- `b[off:off+n]`, which is shorter where `b` ends before.
abbrev pub slice : ℕ → ℕ → Bytes → Bytes
slice off n b = take n (drop off b)

-- WriteAt: what stands at `off` is overwritten; a gap behind the end is filled with zeros.
unfoldable pub write_at : ℕ → Bytes → Bytes → Bytes
write_at zero w b = w ++ drop (length w) b
write_at (suc off) w [] = 0 ∷ write_at off w []
write_at (suc off) w (x ∷ b) = x ∷ write_at off w b

-- A read behind a prefix, and of the prefix itself.
pub slice_skip :
    (n off k : ℕ) (xs ys : Bytes) → length xs ≡ n → slice (n + off) k (xs ++ ys) ≡ slice off k ys
slice_skip n off k xs ys h =
    ap (take k)
      (drop-append (n + off) xs ys (omega arith) ∙ ap (λ (m : ℕ). drop m ys) (omega arith))

pub slice_here : (n : ℕ) (xs ys : Bytes) → length xs ≡ n → slice 0 n (xs ++ ys) ≡ xs
slice_here n xs ys h = take-append n xs ys h

pub slice_left :
    (off k : ℕ) (xs ys : Bytes) → off + k ≤ length xs → slice off k (xs ++ ys) ≡ slice off k xs
slice_left off k xs ys h =
    ap (take k) (drop-append_left off xs ys (omega arith))
    ∙ take-append_left k (drop off xs) ys (omega (arith, length-drop off xs))

-- A write behind a prefix, over the beginning, and before a suffix.
pub write_at_skip :
    (n off : ℕ) (w xs ys : Bytes)
    → length xs ≡ n
    → write_at (n + off) w (xs ++ ys) ≡ xs ++ write_at off w ys
unfolding write_at
write_at_skip n off w [] ys h = ap (λ (k : ℕ). write_at k w ys) (omega arith)
write_at_skip n off w (x ∷ xs) ys h =
    ap (λ (k : ℕ). write_at k w (x ∷ xs ++ ys)) next
    ∙ ap (◌∷◌ x) (write_at_skip (length xs) off w xs ys refl)
  where
    next : n + off ≡ suc (length xs + off)
    next = omega arith

pub write_at_here : (w xs ys : Bytes) → length w ≡ length xs → write_at 0 w (xs ++ ys) ≡ w ++ ys
unfolding write_at
write_at_here w xs ys h = ap (λ (t : Bytes). w ++ t) (drop_seam (length w) xs ys (omega arith))

pub write_at_left :
    (off : ℕ) (w xs ys : Bytes)
    → off + length w ≤ length xs
    → write_at off w (xs ++ ys) ≡ write_at off w xs ++ ys
unfolding write_at
write_at_left zero w xs ys h =
    rw (drop-append_left (length w) xs ys (omega arith)) (sym (append_assoc w _ ys))
write_at_left (suc off) w [] ys h = absurd (omega arith)
write_at_left (suc off) w (x ∷ xs) ys h = ap (◌∷◌ x) (write_at_left off w xs ys (omega arith))
