-- ===== src/Rag/Documents/Content/Replace.antt =====
-- Selecting among the rows of a table when some are replaced, as `delete(Chunk)` and the new rows do.
use rag_service.Prelude.{
  Bool, true, not, List, [], ◌∷◌, ◌++◌, select, remove, All, ◌≡◌, refl, arith, Bool-cases, inl, inr,
}

pub select-append :
    {A : Type 0} (p : A → Bool) (xs ys : List A) → select p (xs ++ ys) ≡ select p xs ++ select p ys
unfolding select
select-append p [] ys = refl
select-append p (x ∷ xs) ys = elim (Bool-cases (p x)) [
  | inl e ↦ rw (e, select-append p xs ys)
  | inr e ↦ rw (e, select-append p xs ys)
]

pub select-remove_same : {A : Type 0} (p : A → Bool) (xs : List A) → select p (remove p xs) ≡ []
unfolding select remove
select-remove_same p [] = refl
select-remove_same p (x ∷ xs) = ground (arith, select-remove_same p xs)

pub select-remove_other :
    {A : Type 0} (p : A → Bool) (xs : List A)
    → select (λ x. not (p x)) (remove p xs) ≡ select (λ x. not (p x)) xs
unfolding select remove
select-remove_other p [] = refl
select-remove_other p (x ∷ xs) = ground (arith, select-remove_other p xs)

pub select-All :
    {A : Type 0} (p : A → Bool) (xs : List A) → All (λ x. p x ≡ true) xs → select p xs ≡ xs
unfolding select
select-All p [] h = refl
select-All p (x ∷ xs) h = rw (h.0, select-All p xs h.1)

pub select-None :
    {A : Type 0} (p : A → Bool) (xs : List A)
    → All (λ x. p x ≡ true) xs
    → select (λ x. not (p x)) xs ≡ []
unfolding select
select-None p [] h = refl
select-None p (x ∷ xs) h = rw (h.0, select-None p xs h.1)
