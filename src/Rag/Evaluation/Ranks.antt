-- ===== src/Rag/Evaluation/Ranks.antt =====
-- `percentile` and the nearest-rank definition.
use rag_service.Prelude.{
  ℕ, zero, suc, ◌+◌, ◌-◌, ◌*◌, ◌/◌, ◌≤◌, ◌<◌, Bool, false, ◌&&◌, not, List, [], ◌∷◌, length,
  get_elem?, All, some, ltb, leb, ◌≡◌, refl, ap, inl, inr, arith, Bool-cases, insert_by, sort_by,
  count, count-sort_by, some-inj, length-sort_by,
}
use native.Mathlib.Nat.{mul_comm}
use rag_service.Rag.Exec.{ok}
use rag_service.Rag.Evaluation.{sorted, percentile}

-- In ascending order: each number is at most every later one.
Ascending : List ℕ → Type 0
Ascending [] = Unit
Ascending (x ∷ xs) = All (λ y. x ≤ y) xs × Ascending xs

goes_behind : ℕ → ℕ → Bool
goes_behind x y = ltb y x

insert-All :
    (b x : ℕ) (xs : List ℕ)
    → b ≤ x
    → All (λ y. b ≤ y) xs
    → All (λ y. b ≤ y) (insert_by goes_behind x xs)
unfolding insert_by goes_behind
insert-All b x [] h a = (h, tt)
insert-All b x (y ∷ ys) h a = elim (Bool-cases (ltb y x)) [
  | inl e ↦ rw e (a.0, insert-All b x ys h a.1)
  | inr e ↦ rw e (h, a)
]

All-le : (a b : ℕ) (xs : List ℕ) → a ≤ b → All (λ y. b ≤ y) xs → All (λ y. a ≤ y) xs
All-le a b [] h all = tt
All-le a b (x ∷ xs) h all = (omega arith, All-le a b xs h all.1)

insert-Ascending : (x : ℕ) (xs : List ℕ) → Ascending xs → Ascending (insert_by goes_behind x xs)
unfolding insert_by goes_behind Ascending
insert-Ascending x [] a = (tt, tt)
insert-Ascending x (y ∷ ys) a = elim (Bool-cases (ltb y x)) [
  | inl e ↦ rw e (insert-All y x ys (ground arith) a.0, insert-Ascending x ys a.1)
  | inr e ↦ rw e ((ground arith, All-le x y ys (ground arith) a.0), a)
]

sort-Ascending : (xs : List ℕ) → Ascending (sort_by goes_behind xs)
unfolding sort_by Ascending
sort-Ascending [] = tt
sort-Ascending (x ∷ xs) = insert-Ascending x (sort_by goes_behind xs) (sort-Ascending xs)

-- Numbers that are all at least `v` have none below it.
none_below : (v : ℕ) (xs : List ℕ) → All (λ y. v ≤ y) xs → count (λ x. ltb x v) xs ≡ 0
none_below v [] h = refl
none_below v (x ∷ xs) h = ground (arith, none_below v xs)

at_least_one :
    (b : ℕ) (xs : List ℕ) (i v : ℕ) → All (λ y. b ≤ y) xs → get_elem? xs i ≡ some v → b ≤ v
at_least_one b [] i v a e = cc
at_least_one b (x ∷ xs) zero v a e = ground arith
at_least_one b (x ∷ xs) (suc i) v a e = at_least_one b xs i v a.1 e

-- The number at an index of an ascending list has that many before it, itself included.
rank_le :
    (xs : List ℕ) (i v : ℕ)
    → Ascending xs
    → get_elem? xs i ≡ some v
    → (suc i ≤ count (λ x. leb x v) xs) × (count (λ x. ltb x v) xs ≤ i)
unfolding Ascending
rank_le [] i v a e = cc
rank_le (x ∷ xs) zero v a e =
    let same : x ≡ v = some-inj e in
    let z = none_below v xs (All-le v x xs (omega arith) a.0) in ground arith
rank_le (x ∷ xs) (suc i) v a e = ground (arith, rank_le xs i v a.1 e, at_least_one x xs i v a.0 e)

element_at : (xs : List ℕ) (i : ℕ) → i < length xs → (v : ℕ) × (get_elem? xs i ≡ some v)
element_at [] i h = absurd (omega arith)
element_at (x ∷ xs) zero h = (x, refl)
element_at (x ∷ xs) (suc i) h = element_at xs i (omega arith)

index_in_range : (m n : ℕ) → 0 < n → m ≤ 100 * n → (m + 99) / 100 - 1 < n
index_in_range m n p h = omega arith

product-le : (n p : ℕ) → p ≤ 100 → n * p ≤ 100 * n
product-le n p h = grind arith

product_pos : (n p : ℕ) → 0 < n → 0 < p → 0 < n * p
product_pos n p h k = grind arith

valid : (p : ℕ) → 0 < p → p ≤ 100 → not (ltb 0 p && leb p 100) ≡ false
valid p h k = ground arith

ranked :
    (n p lo hi : ℕ)
    → 0 < n * p
    → suc ((n * p + 99) / 100 - 1) ≤ lo
    → hi ≤ (n * p + 99) / 100 - 1
    → (p * n ≤ 100 * lo) × (100 * hi < p * n)
ranked n p lo hi h l u = rw (mul_comm p n) (omega arith, omega arith)

percentile_at :
    (x : ℕ) (xs : List ℕ) (p v : ℕ)
    → 0 < p
    → get_elem? (sorted (x ∷ xs)) ((length (x ∷ xs) * p + 99) / 100 - 1) ≡ some v
    → (p * length (x ∷ xs) ≤ 100 * count (λ y. leb y v) (x ∷ xs))
      × (100 * count (λ y. ltb y v) (x ∷ xs) < p * length (x ∷ xs))
unfolding sorted goes_behind
percentile_at x xs p v h at =
    let (below, above) = rank_le (sorted (x ∷ xs)) _ v (sort-Ascending (x ∷ xs)) at in
    ranked (length (x ∷ xs)) p _ _ (product_pos (length (x ∷ xs)) p (omega arith) h)
      (omega (arith, below, count-sort_by (λ y. leb y v) goes_behind (x ∷ xs)))
      (omega (arith, above, count-sort_by (λ y. ltb y v) goes_behind (x ∷ xs)))

-- For a sample that is not empty and a percentage from 1 to 100, a value is given: at least that
-- percentage of the sample is at most the value, and less than it is below the value.
pub percentile_lem :
    (x : ℕ) (xs : List ℕ) (p : ℕ)
    → 0 < p
    → p ≤ 100
    → (v : ℕ) × (percentile (x ∷ xs) p ≡ ok (some v))
      × (p * length (x ∷ xs) ≤ 100 * count (λ y. leb y v) (x ∷ xs))
      × (100 * count (λ y. ltb y v) (x ∷ xs) < p * length (x ∷ xs))
unfolding percentile sorted goes_behind
percentile_lem x xs p h k =
    let n = length (x ∷ xs) in
    let i = (n * p + 99) / 100 - 1 in
    let inside = index_in_range (n * p) n (omega arith) (product-le n p k) in
    let (v, at) =
      element_at (sorted (x ∷ xs)) i (omega (arith, length-sort_by goes_behind (x ∷ xs))) in
    let bounds = percentile_at x xs p v h at in (v, rw (valid p h k) (ap ok at), bounds.0, bounds.1)
