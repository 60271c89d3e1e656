-- ===== src/Rag/Exec.antt =====
-- Code that may raise: what it returned or the exception, and the `do` blocks that stop at an
-- exception.
use rag_service.Prelude.{◌≡◌, refl}
use rag_service.Rag.Indexing.{Exception}

pub data Result {ℓ} (A : Type ℓ) : Type ℓ where
  ok : A → Result A
  err : Exception → Result A

infixl 5 ◌>>=◌
abbrev pub ◌>>=◌ {ℓ κ} : {A : Type ℓ} {B : Type κ} → Result A → (A → Result B) → Result B
m >>= next = elim m [ err raised ↦ err raised | ok value ↦ next value ]

pub err-ne-ok {ℓ} : {A : Type ℓ} {exc : Exception} {value : A} → ¬ (err exc ≡ ok value)
err-ne-ok h = cc

-- Where a block returns, its first step returned something, and the rest returned from there.
pub both_returned {ℓ κ} :
    {A : Type ℓ} {B : Type κ} (first : Result A) (next : A → Result B) {result : B}
    → (first >>= next) ≡ ok result
    → (value : A) × (first ≡ ok value) × (next value ≡ ok result)
both_returned (err raised) next h = absurd (err-ne-ok h)
both_returned (ok value) next h = (value, refl, h)
