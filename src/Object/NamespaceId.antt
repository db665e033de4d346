-- ===== src/Object/NamespaceId.antt =====
-- ValidateNamespaceID (object.go): the pattern `^[a-z0-9][a-z0-9\-_]{0,61}[a-z0-9]$`.
use blobs.Base.{
  ℕ, ◌≤◌, ◌≡◌, ◌≢◌, Bool, true, false, not, ◌&&◌, ◌||◌, ◌==◌, leb, [], ◌∷◌, length, All, arith,
}
use blobs.Base.Bytes.{Bytes}
use blobs.Errors.{Result, ok, failed, refuse_if}

unfoldable pub is_alnum : ℕ → Bool
is_alnum c = (leb b'a' c && leb c b'z') || (leb b'0' c && leb c b'9')

-- The characters after the first: any number of inner ones, and an alphanumeric one.
unfoldable pub matches_tail : Bytes → Bool
matches_tail [] = false
matches_tail (c ∷ []) = is_alnum c
matches_tail (c ∷ d ∷ r) = (is_alnum c || (c == b'-' || c == b'_')) && matches_tail (d ∷ r)

unfoldable pub matches_id : Bytes → Bool
matches_id [] = false
matches_id (c ∷ r) = is_alnum c && (matches_tail r && leb (length r) 62)

unfoldable pub validate_namespace_id : Bytes → Result (Unit {0})
validate_namespace_id id = refuse_if (not (matches_id id)) (failed "invalid namespace id")

-- No colon and no slash.
abbrev pub IsPlain : ℕ → Type 0
IsPlain c = (c ≢ b':') × (c ≢ b'/')

matches_tail-IsPlain : (r : Bytes) → matches_tail r ≡ true → All IsPlain r
unfolding matches_tail is_alnum
matches_tail-IsPlain [] h = tt
matches_tail-IsPlain (c ∷ []) h = ground arith
matches_tail-IsPlain (c ∷ d ∷ r) h =
    let rest = matches_tail-IsPlain (d ∷ r) (ground arith) in (ground arith, rest)

length-tail : (r : Bytes) → matches_tail r ≡ true → 1 ≤ length r
unfolding matches_tail
length-tail [] h = ground arith
length-tail (c ∷ r) h = omega arith

-- An accepted identifier has 2 to 63 characters, and none of them is a colon or a slash.
validate_namespace_id-IsPlain :
    (id : Bytes)
    → validate_namespace_id id ≡ ok tt
    → (2 ≤ length id) × (length id ≤ 63) × All IsPlain id
unfolding validate_namespace_id matches_id is_alnum
validate_namespace_id-IsPlain [] h = ground arith
validate_namespace_id-IsPlain (c ∷ r) h =
    let tail : matches_tail r ≡ true = ground arith in
    (omega (arith, length-tail r tail), ground arith, ((ground arith), matches_tail-IsPlain r tail))
