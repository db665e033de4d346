-- ===== src/Errors.antt =====
-- errors/errors.go: the typed errors, and Go's (value, error) pair as a result.
-- A message made by fmt.Errorf is `failed` with its fixed text; what %v and %w put in is left out,
-- but for `wrapped`, which keeps the error that %w wraps. `panicked` is a run-time panic,
-- and `eof` is io.EOF.
use Prim.Native.String.{String}
use blobs.Base.{ℕ, ◌≡◌, refl, ◌⊎◌, inl, inr, Bool, true, false}
use blobs.Base.Bytes.{Bytes}
use blobs.Base.Int.{ℤ}

pub data Error : Type 0 where
  not_found : Bytes → Bytes → Error
  already_exists : Bytes → Error
  quota_exceeded : Bytes → String → ℤ → ℤ → Error
  corruption : ℕ → ℕ → String → Error
  invalid_key : Bytes → String → Error
  invalid_namespace_id : Bytes → String → Error
  closed : Error
  eof : Error
  failed : String → Error
  wrapped : String → Error → Error
  panicked : String → Error

pub data Result {ℓ} (A : Type ℓ) : Type ℓ where
  ok : A → Result A
  err : Error → Result A

-- `if bad { return ..., err }`.
abbrev pub refuse_if : Bool → Error → Result (Unit {0})
refuse_if true e = err e
refuse_if false e = ok tt

-- `if err != nil { return ..., err }` behind a call.
infixl 5 ◌>>=◌
abbrev pub ◌>>=◌ {ℓ κ} : {B : Type κ} {A : Type ℓ} → Result A → (A → Result B) → Result B
err e >>= next = err e
ok a >>= next = next a

infixl 5 ◌>>◌
abbrev pub ◌>>◌ {ℓ} : {B : Type ℓ} → Result (Unit {0}) → Result B → Result B
err e >> next = err e
ok _ >> next = next

-- A type assertion, which does not look into a wrapped error.
unfoldable pub is_not_found : Error → Bool
is_not_found (not_found ns key) = true
is_not_found _ = false

pub Result-cases {ℓ} :
    {A : Type ℓ} (r : Result A) → ((a : A) × (r ≡ ok a)) ⊎ ((e : Error) × (r ≡ err e))
Result-cases (ok a) = inl (a, refl)
Result-cases (err e) = inr (e, refl)

pub ok_inj {ℓ} : {A : Type ℓ} {a b : A} → ok a ≡ ok b → a ≡ b
ok_inj h = cc
