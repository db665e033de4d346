-- ===== src/Step.antt =====
-- Go functions that change a state: the state afterwards, also where the call fails.
use blobs.Base.{◌≡◌, refl}
use blobs.Errors.{Error, Result, ok, err}

abbrev pub Step : Type 0 → Type 0 → Type 0
Step X A = X × Result A

infixl 5 ◌>>=◌
abbrev pub ◌>>=◌ : {X A B : Type 0} → Step X A → (X → A → Step X B) → Step X B
(x, ok a) >>= f = f x a
(x, err e) >>= f = (x, err e)

-- A call that reads only, and what follows it.
abbrev pub attempt : {X A B : Type 0} → X → Result A → (A → Step X B) → Step X B
attempt x (ok a) f = f a
attempt x (err e) f = (x, err e)

-- A call whose error changes nothing, behind the text of its wrapping, and what follows it.
abbrev pub update : {X Y A : Type 0} → X → (Error → Error) → Result Y → (Y → Step X A) → Step X A
update x wrap (ok y) f = f y
update x wrap (err e) f = (x, err (wrap e))

-- `if err != nil { return fmt.Errorf(…, err) }` behind a call.
abbrev pub wrap_step : {X A : Type 0} → (Error → Error) → Step X A → Step X A
wrap_step wrap (x, ok a) = (x, ok a)
wrap_step wrap (x, err e) = (x, err (wrap e))

-- A property of the state afterwards, whatever the call gives.
abbrev pub After : {X A : Type 0} → (X → Type 0) → Step X A → Type 0
After P (x, r) = P x

module _ {X A B : Type 0} (P : X → Type 0) where
  pub After-bind :
      (m : Step X A) (f : X → A → Step X B)
      → After P m
      → ((x : X) (a : A) → P x → After P (f x a))
      → After P (m >>= f)
  After-bind (x, ok a) f h k = k x a h
  After-bind (x, err e) f h k = h

  pub After-attempt :
      (x : X) (r : Result A) (f : A → Step X B)
      → P x
      → ((a : A) → r ≡ ok a → After P (f a))
      → After P (attempt x r f)
  After-attempt x (ok a) f h k = k a refl
  After-attempt x (err e) f h k = h

module _ {X Y A : Type 0} (P : X → Type 0) where
  pub After-update :
      (x : X) (wrap : Error → Error) (r : Result Y) (f : Y → Step X A)
      → P x
      → ((y : Y) → r ≡ ok y → After P (f y))
      → After P (update x wrap r f)
  After-update x wrap (ok y) f h k = k y refl
  After-update x wrap (err e) f h k = h

module _ {X A B : Type 0} (Q : Step X B → Type 0) (x : X) where
  pub attempt-cases :
      (r : Result A) (f : A → Step X B)
      → ((e : Error) → Q (x, err e))
      → ((a : A) → r ≡ ok a → Q (f a))
      → Q (attempt x r f)
  attempt-cases (ok a) f h k = k a refl
  attempt-cases (err e) f h k = h e

  pub update-cases :
      (wrap : Error → Error) (r : Result A) (f : A → Step X B)
      → ((e : Error) → Q (x, err e))
      → ((a : A) → r ≡ ok a → Q (f a))
      → Q (update x wrap r f)
  update-cases wrap (ok a) f h k = k a refl
  update-cases wrap (err e) f h k = h (wrap e)
