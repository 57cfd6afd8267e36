-- ===== src/Base/Results.antt =====
-- arrow::Status and arrow::Result, as far as the program tells outcomes apart: the status code.
-- The text of a message is left out.
use mathlib.Core.Path.{◌≡◌, refl}
use mathlib.Core.Logic.{◌⊎◌, inl, inr}
use mathlib.Core.List.{List, [], ◌∷◌}
use mathlib.Core.Option.{Option, none, some}

pub data StatusCode : Type 0 where
  index_error invalid not_implemented type_error key_error io_error : StatusCode
  -- No status at all: the process has ended, or does what C++ leaves undefined.
  fault : StatusCode

-- `err` is a status that is not OK.
pub data Result {ℓ} (A : Type ℓ) : Type ℓ where
  ok : A → Result A
  err : StatusCode → Result A

-- A status: OK, or a code.
abbrev pub Status : Type 0
Status = Result (Unit {0})

pub Result-cases {ℓ} :
    {A : Type ℓ} (r : Result A) → ((a : A) × (r ≡ ok a)) ⊎ ((code : StatusCode) × (r ≡ err code))
Result-cases (err code) = inr (code, refl)
Result-cases (ok a) = inl (a, refl)

module _ {ℓ κ} {A : Type ℓ} {B : Type κ} where
  infixl 5 ◌>>=◌
  -- ARROW_ASSIGN_OR_RAISE
  abbrev pub ◌>>=◌ : Result A → (A → Result B) → Result B
  err code >>= next = err code
  ok value >>= next = next value

  -- A successful chain had a successful first step.
  pub bind-ok :
      (first : Result A) (next : A → Result B) {b : B}
      → (first >>= next) ≡ ok b
      → (a : A) × (first ≡ ok a) × (next a ≡ ok b)
  bind-ok (err code) next e = cc
  bind-ok (ok value) next e = (value, refl, e)

module _ {ℓ} {B : Type ℓ} where
  infixl 5 ◌>>◌
  -- ARROW_RETURN_NOT_OK
  abbrev pub ◌>>◌ : Status → Result B → Result B
  err code >> rest = err code
  ok u >> rest = rest

  pub then-ok :
      (m : Status) (rest : Result B) {b : B} → (m >> rest) ≡ ok b → (m ≡ ok tt) × (rest ≡ ok b)
  then-ok (err code) rest e = absurd (cc)
  then-ok (ok tt) rest e = (refl, e)

module _ {ℓ κ} {A : Type ℓ} {B : Type κ} where
  -- One fallible step for each element, in order; the first failure ends the loop.
  abbrev pub map_result : (A → Result B) → List A → Result (List B)
  map_result f [] = ok []
  map_result f (x ∷ xs) = f x >>= λ y. map_result f xs >>= λ ys. ok (y ∷ ys)

-- What is not there leaves no status.
abbrev pub or_fault {ℓ} : {A : Type ℓ} → Option A → Result A
or_fault none = err fault
or_fault (some a) = ok a
