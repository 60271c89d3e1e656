-- ===== src/Prelude/Decimal.antt =====
-- `str(n)` of a natural number, and its reading back. `ℤ` stands for Python's `int` where the
-- code tests a sign.
use Prim.Native.Nat.{ℕ, zero, suc, ◌+◌, ◌-◌, ◌*◌, ◌/◌, ◌%◌, ◌<◌, ◌≤◌}
use mathlib.Core.Path.{◌≡◌, refl, sym, ap, ◌∙◌}
use mathlib.Core.Logic.{inl, inr}
use mathlib.Core.List.{List, [], ◌∷◌, ◌++◌}
use native.Mathlib.Omega.{arith}
use rag_service.Prelude.Lists.{All, All-append}
use rag_service.Prelude.Tests.{Text, ltb, if◌then◌else◌, Bool-cases}

-- `negsuc n` is -(n + 1).
pub data ℤ : Type 0 where
  pos : ℕ → ℤ
  negsuc : ℕ → ℤ

-- The digits of `n`, the lowest last; the fuel is one more than `n` and so never runs out.
digits : ℕ → ℕ → Text
digits zero n = []
digits (suc fuel) n =
    let rest = digits fuel (n / 10) in
    if ltb n 10 then (48 + n) ∷ [] else rest ++ (48 + n % 10) ∷ []

unfoldable pub show_nat : ℕ → Text
unfolding digits
show_nat n = digits (suc n) n

read_from : ℕ → Text → ℕ
read_from acc [] = acc
read_from acc (c ∷ s) = read_from (acc * 10 + (c - 48)) s

unfoldable pub read_nat : Text → ℕ
unfolding read_from
read_nat = read_from 0

read_from-append :
    (acc : ℕ) (s : Text) (c : ℕ) → read_from acc (s ++ c ∷ []) ≡ read_from acc s * 10 + (c - 48)
unfolding read_from
read_from-append acc [] c = refl
read_from-append acc (d ∷ s) c = read_from-append (acc * 10 + (d - 48)) s c

read-digits : (fuel n : ℕ) → n < fuel → read_from 0 (digits fuel n) ≡ n
unfolding digits
read-digits zero n h = elim h [ ]
read-digits (suc fuel) n h = elim (Bool-cases (ltb n 10)) [
  | inl small ↦ rw small (unfold read_from in omega arith)
  | inr big ↦ rw (big, read_from-append) (ground (arith, read-digits fuel (n / 10)))
]

-- The decimal text of a number reads back as the number.
pub read-show : (n : ℕ) → read_nat (show_nat n) ≡ n
unfolding show_nat read_nat
read-show n = read-digits (suc n) n (omega arith)

pub show_nat-injective : (m n : ℕ) → show_nat m ≡ show_nat n → m ≡ n
show_nat-injective m n e = sym (read-show m) ∙ ap read_nat e ∙ read-show n

digits_small : (fuel n : ℕ) → All (λ c. (48 ≤ c) × (c ≤ 57)) (digits fuel n)
unfolding digits
digits_small zero n = tt
digits_small (suc fuel) n = elim (Bool-cases (ltb n 10)) [
  | inl small ↦ rw small ((omega arith, ground arith), tt)
  | inr big ↦ rw big (
      All-append (λ c. (48 ≤ c) × (c ≤ 57)) (digits fuel (n / 10)) _ (digits_small fuel (n / 10))
        ((omega arith, omega arith), tt))
]

-- A decimal text has only digits, and is not empty.
pub show_nat-digits : (n : ℕ) → All (λ c. (48 ≤ c) × (c ≤ 57)) (show_nat n)
unfolding show_nat
show_nat-digits n = digits_small (suc n) n

append-cons-ne {ℓ} : {A : Type ℓ} (xs ys : List A) (y : A) → ¬ (xs ++ (y ∷ ys) ≡ [])
append-cons-ne [] ys y e = cc
append-cons-ne (x ∷ xs) ys y e = cc

pub show_nat-ne : (n : ℕ) → ¬ (show_nat n ≡ [])
unfolding show_nat digits
show_nat-ne n e = elim (Bool-cases (ltb n 10)) [
  | inl small ↦ append-cons-ne [] [] (48 + n) (rw small at e)
  | inr big ↦ append-cons-ne (digits n (n / 10)) [] (48 + n % 10) (rw big at e)
]

pub append_cancel {ℓ} : {A : Type ℓ} (xs ys zs : List A) → xs ++ ys ≡ xs ++ zs → ys ≡ zs
append_cancel [] ys zs e = e
append_cancel (x ∷ xs) ys zs e = append_cancel xs ys zs (cc)
