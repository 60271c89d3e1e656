-- ===== src/Prelude/Tables.antt =====
-- A database table as the list of its rows in primary-key order of insertion: SELECT, UPDATE and
-- DELETE with a WHERE clause that is a Boolean test.
use mathlib.Core.Path.{◌≡◌, refl}
use mathlib.Core.Bool.{Bool, true, false}
use mathlib.Core.List.{List, [], ◌∷◌, ◌++◌}
use mathlib.Core.Option
use mathlib.Core.Option.{Option, none, some}
use mathlib.Core.Logic.{inl, inr, ◌≢◌}
use Prim.Native.Nat.{ℕ}
use mathlib.Core.Path.{subst, sym}
use native.Mathlib.Omega.{arith}
use rag_service.Prelude.Tests.{if◌then◌else◌, Bool-cases, ◌==◌, ==_refl}
use rag_service.Prelude.Lists.{All}

pub none-ne-some {ℓ} : {A : Type ℓ} (x : A) → ¬ (none ≡ some x)
none-ne-some x e = cc

pub some-inj {ℓ} : {A : Type ℓ} {x y : A} → some x ≡ some y → x ≡ y
some-inj e = cc

module _ {ℓ} {A : Type ℓ} where
  -- `db.scalar(select(A).where(p))`: the first row that fits.
  unfoldable pub find : (A → Bool) → List A → Option A
  find p [] = none
  find p (x ∷ xs) = if p x then some x else find p xs

  -- `db.scalars(select(A).where(p))`
  unfoldable pub select : (A → Bool) → List A → List A
  select p [] = []
  select p (x ∷ xs) = let rest = select p xs in if p x then x ∷ rest else rest

  -- `update(A).where(p)`, or an assignment to the attributes of a loaded row.
  unfoldable pub modify : (A → Bool) → (A → A) → List A → List A
  modify p f [] = []
  modify p f (x ∷ xs) = (if p x then f x else x) ∷ modify p f xs

  -- `delete(A).where(p)`
  unfoldable pub remove : (A → Bool) → List A → List A
  remove p [] = []
  remove p (x ∷ xs) = let rest = remove p xs in if p x then rest else x ∷ rest

  -- A row that a test for `q` finds is changed in place by an update which `q` does not notice.
  pub find-modify :
      (p q : A → Bool) (f : A → A) (xs : List A)
      → ((x : A) → q (f x) ≡ q x)
      → ((x : A) → q x ≡ true → p x ≡ true)
      → find q (modify p f xs) ≡ Option.map f (find q xs)
  unfolding find modify
  find-modify p q f [] same sub = refl
  find-modify p q f (x ∷ xs) same sub = ground (arith, find-modify p q f xs same sub, same x, sub x)

  -- A row that the update never touches is found as before.
  pub find-modify_ne :
      (p q : A → Bool) (f : A → A) (xs : List A)
      → ((x : A) → p x ≡ true → q x ≡ false)
      → ((x : A) → p x ≡ true → q (f x) ≡ false)
      → find q (modify p f xs) ≡ find q xs
  unfolding find modify
  find-modify_ne p q f [] off off' = refl
  find-modify_ne p q f (x ∷ xs) off off' =
      ground (arith, find-modify_ne p q f xs off off', off x, off' x)

  pub find_sound : (p : A → Bool) (xs : List A) (x : A) → find p xs ≡ some x → p x ≡ true
  unfolding find
  find_sound p [] x h = ground arith
  find_sound p (y ∷ ys) x h = ground (arith, find_sound p ys x)

  pub find-remove :
      (p q : A → Bool) (xs : List A)
      → ((x : A) → q x ≡ true → p x ≡ true)
      → find q (remove p xs) ≡ none
  unfolding find remove
  find-remove p q [] sub = refl
  find-remove p q (x ∷ xs) sub = ground (arith, find-remove p q xs sub, sub x)

  -- A row that is not removed is found as before.
  pub find-remove_ne :
      (p q : A → Bool) (xs : List A)
      → ((x : A) → q x ≡ true → p x ≡ false)
      → find q (remove p xs) ≡ find q xs
  unfolding find remove
  find-remove_ne p q [] off = refl
  find-remove_ne p q (x ∷ xs) off = ground (arith, find-remove_ne p q xs off, off x)

  -- The first row that fits `p` is the first that fits a stricter test which it passes.
  pub find-narrow :
      (p q : A → Bool) (xs : List A) (x : A)
      → ((y : A) → q y ≡ true → p y ≡ true)
      → find p xs ≡ some x
      → q x ≡ true
      → find q xs ≡ some x
  unfolding find
  find-narrow p q [] x sub h t = h
  find-narrow p q (y ∷ ys) x sub h t = ground (arith, find-narrow p q ys x sub, sub y)

  pub find-append_some :
      (p : A → Bool) (xs ys : List A) (x : A) → find p xs ≡ some x → find p (xs ++ ys) ≡ some x
  unfolding find
  find-append_some p [] ys x h = absurd (none-ne-some x h)
  find-append_some p (y ∷ ys) zs x h = ground (arith, find-append_some p ys zs x)

  pub find-append :
      (p : A → Bool) (xs ys : List A) → find p xs ≡ none → find p (xs ++ ys) ≡ find p ys
  unfolding find
  find-append p [] ys h = refl
  find-append p (x ∷ xs) ys h = ground (arith, find-append p xs ys)

module _ {ℓ κ} {A : Type ℓ} (P : A → Type κ) where
  pub All-modify :
      (p : A → Bool) (f : A → A) (xs : List A)
      → ((x : A) → p x ≡ true → P x → P (f x))
      → All P xs
      → All P (modify p f xs)
  unfolding modify
  All-modify p f [] keep h = tt
  All-modify p f (x ∷ xs) keep h = elim (Bool-cases (p x)) [
    | inl e ↦ rw e (keep x e h.0, All-modify p f xs keep h.1)
    | inr e ↦ rw e (h.0, All-modify p f xs keep h.1)
  ]

  pub All-find : (p : A → Bool) (xs : List A) (x : A) → All P xs → find p xs ≡ some x → P x
  unfolding find
  All-find p [] x h e = absurd (none-ne-some x e)
  All-find p (y ∷ ys) x h e = elim (Bool-cases (p y)) [
    | inl t ↦ subst P (some-inj (rw t at e)) h.0
    | inr t ↦ All-find p ys x h.1 (rw t at e)
  ]

  pub All-select : (p : A → Bool) (xs : List A) → All P xs → All P (select p xs)
  unfolding select
  All-select p [] h = tt
  All-select p (x ∷ xs) h = elim (Bool-cases (p x)) [
    | inl e ↦ rw e (h.0, All-select p xs h.1)
    | inr e ↦ rw e (All-select p xs h.1)
  ]

  pub All-remove : (p : A → Bool) (xs : List A) → All P xs → All P (remove p xs)
  unfolding remove
  All-remove p [] h = tt
  All-remove p (x ∷ xs) h = elim (Bool-cases (p x)) [
    | inl e ↦ rw e (All-remove p xs h.1)
    | inr e ↦ rw e (h.0, All-remove p xs h.1)
  ]

  -- What is selected satisfies the test too.
  pub All-select_where :
      (p : A → Bool) (xs : List A) → All P xs → All (λ x. P x × (p x ≡ true)) (select p xs)
  unfolding select
  All-select_where p [] h = tt
  All-select_where p (x ∷ xs) h = elim (Bool-cases (p x)) [
    | inl e ↦ rw e ((h.0, e), All-select_where p xs h.1)
    | inr e ↦ rw e (All-select_where p xs h.1)
  ]

module _ {ℓ} {A : Type ℓ} (key : A → ℕ) where
  -- The keys of the rows are different: a primary key.
  abbrev pub Unique : List A → Type 0
  Unique [] = Unit
  Unique (x ∷ xs) = All (λ y. key y ≢ key x) xs × Unique xs

  -- Every row is the one that its key finds.
  pub Unique-find : (xs : List A) → Unique xs → All (λ x. find (λ r. key r == key x) xs ≡ some x) xs
  unfolding find
  Unique-find [] u = tt
  Unique-find (x ∷ xs) u = (rw (==_refl (key x)), later xs u.0 (Unique-find xs u.1))
    where
      later :
          (ys : List A)
          → All (λ y. key y ≢ key x) ys
          → All (λ y. find (λ r. key r == key y) xs ≡ some y) ys
          → All
              (λ y. (if key x == key y then some x else find (λ r. key r == key y) xs) ≡ some y)
              ys
      later [] n h = tt
      later (y ∷ ys) n h = (ground arith, later ys n.1 h.1)

module _ {ℓ} {A : Type ℓ} (p : A → Bool) where
  pub find-none : (xs : List A) → find p xs ≡ none → All (λ x. p x ≡ false) xs
  unfolding find
  find-none [] h = tt
  find-none (x ∷ xs) h = elim (Bool-cases (p x)) [
    | inl e ↦ absurd (none-ne-some x (sym (rw e at h)))
    | inr e ↦ (e, find-none xs (rw e at h))
  ]

  pub find_absent : (xs : List A) → All (λ x. p x ≡ false) xs → find p xs ≡ none
  unfolding find
  find_absent [] h = refl
  find_absent (x ∷ xs) h = rw h.0 (find_absent xs h.1)
