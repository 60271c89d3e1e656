-- ===== src/Admin/Exec.antt =====
-- The exceptions of backend/common/exception/errors.py with their messages, and handlers that may
-- raise after they have written: a write to Redis is not undone by an exception.
use rag_service.Prelude.{Text, Bool, true, false, Option, none, some, ◌≡◌, refl}

pub data Error : Type 0 where
  token_error authorization_error forbidden_error not_found_error : Text → Error
  request_error custom_error server_error value_error : Text → Error

pub data Result {ℓ} (A : Type ℓ) : Type ℓ where
  ok : A → Result A
  err : Error → Result A

infixl 5 ◌>>=◌
abbrev pub ◌>>=◌ {ℓ κ} : {A : Type ℓ} {B : Type κ} → Result A → (A → Result B) → Result B
m >>= next = elim m [ err raised ↦ err raised | ok value ↦ next value ]

abbrev pub or_raise {ℓ} : {A : Type ℓ} → Error → Option A → Result A
or_raise error none = err error
or_raise error (some value) = ok value

-- A handler over a state `S`: it returns or raises, and leaves a state either way.
abbrev pub M : Type 0 → Type 0 → Type 0
M S A = S → Result A × S

abbrev pub chain : {S A B : Type 0} → Result A × S → (A → M S B) → Result B × S
chain (err raised, s) next = (err raised, s)
chain (ok value, s) next = next value s

-- Where a chain returns, its first step returned something, and the rest returned from there.
pub chain_returned :
    {S A B : Type 0} (m : Result A × S) (next : A → M S B) {value : B} {after : S}
    → ◌≡◌ {A = Result B × S} (chain m next) (ok value, after)
    → (a : A) × (s : S) × (m ≡ (ok a, s)) × (next a s ≡ (ok value, after))
chain_returned (err raised, s) next h = cc
chain_returned (ok a, s) next h = (a, s, refl, h)

abbrev pub guard : Bool → Error → Result (Unit {0})
guard true error = ok tt
guard false error = err error
