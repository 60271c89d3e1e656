-- ===== src/Prelude/Sorting.antt =====
-- Python's `sorted`: a stable sort, and the facts on it that do not depend on the order.
use Prim.Native.Nat.{ℕ, suc}
use mathlib.Core.Path.{◌≡◌, refl, ◌∙◌}
use mathlib.Core.Bool.{Bool}
use mathlib.Core.List.{List, [], ◌∷◌}
use native.Mathlib.Omega.{arith}
use rag_service.Prelude.Tests.{if◌then◌else◌}
use rag_service.Prelude.Lists.{length}

-- A stable sort: an item goes before the first one that it does not come behind.
unfoldable pub insert_by {ℓ} : {A : Type ℓ} → (A → A → Bool) → A → List A → List A
insert_by behind x [] = x ∷ []
insert_by behind x (y ∷ ys) = if behind x y then y ∷ insert_by behind x ys else x ∷ y ∷ ys

unfoldable pub sort_by {ℓ} : {A : Type ℓ} → (A → A → Bool) → List A → List A
unfolding insert_by
sort_by behind [] = []
sort_by behind (x ∷ xs) = insert_by behind x (sort_by behind xs)

module _ {ℓ} {A : Type ℓ} (q : A → Bool) where
  -- The number of items that pass a test.
  abbrev pub count : List A → ℕ
  count [] = 0
  count (x ∷ xs) = let rest = count xs in if q x then suc rest else rest

  count-insert_by :
      (behind : A → A → Bool) (x : A) (xs : List A) → count (insert_by behind x xs) ≡ count (x ∷ xs)
  unfolding insert_by
  count-insert_by behind x [] = refl
  count-insert_by behind x (y ∷ ys) = ground (arith, count-insert_by behind x ys)

  pub count-sort_by : (behind : A → A → Bool) (xs : List A) → count (sort_by behind xs) ≡ count xs
  unfolding sort_by
  count-sort_by behind [] = refl
  count-sort_by behind (x ∷ xs) =
      count-insert_by behind x (sort_by behind xs) ∙ ground (arith, count-sort_by behind xs)

module _ {ℓ} {A : Type ℓ} (behind : A → A → Bool) where
  length-insert_by : (x : A) (xs : List A) → length (insert_by behind x xs) ≡ suc (length xs)
  unfolding insert_by
  length-insert_by x [] = refl
  length-insert_by x (y ∷ ys) = ground (arith, length-insert_by x ys)

  pub length-sort_by : (xs : List A) → length (sort_by behind xs) ≡ length xs
  unfolding sort_by
  length-sort_by [] = refl
  length-sort_by (x ∷ xs) = omega (arith, length-insert_by x (sort_by behind xs), length-sort_by xs)
