-- ===== src/Utils/Snowflake/Bits.antt =====
-- The fields of a number do not overlap: `|` of shifted fields is their sum, and a mask takes a field out
-- again.
use rag_service.Prelude.{
  ℕ, zero, suc, ◌+◌, ◌*◌, ◌/◌, ◌%◌, ◌≤◌, ◌<◌, max, min, ◌≡◌, refl, sym, ap, ◌∙◌, arith,
}
use Prim.Native.Nat.{bit_and, bit_or, digits, bit_and-bitwise, bit_or-bitwise}

-- More digits than there are change nothing.
more_digits :
    (z : ℕ → ℕ) (f : ℕ → ℕ → ℕ) (n m a b : ℕ) → a ≤ n → a ≤ m → digits z f n a b ≡ digits z f m a b
more_digits z f n m zero b p q = runs_out z f n b ∙ sym (runs_out z f m b)
  where
    runs_out : (z : ℕ → ℕ) (f : ℕ → ℕ → ℕ) (n b : ℕ) → digits z f n 0 b ≡ z b
    runs_out z f zero b = refl
    runs_out z f (suc n) b = refl
more_digits z f zero m (suc a) b p q = absurd (omega arith)
more_digits z f (suc n) zero (suc a) b p q = absurd (omega arith)
more_digits z f (suc n) (suc m) (suc a) b p q =
    ap (λ d. d * 2 + f (suc a % 2) (b % 2))
      (more_digits z f n m (suc a / 2) (b / 2) (omega arith) (omega arith))

or_low_digit :
    (a b : ℕ) → bit_or (suc a) b ≡ bit_or (suc a / 2) (b / 2) * 2 + max (suc a % 2) (b % 2)
or_low_digit a b = omega (
  arith,
  bit_or-bitwise (suc a) b,
  bit_or-bitwise (suc a / 2) (b / 2),
  more_digits (λ c. c) max a (suc a / 2) (suc a / 2) (b / 2) (omega arith) (omega arith),
)

and_low_digit :
    (a b : ℕ) → bit_and (suc a) b ≡ bit_and (suc a / 2) (b / 2) * 2 + min (suc a % 2) (b % 2)
and_low_digit a b = omega (
  arith,
  bit_and-bitwise (suc a) b,
  bit_and-bitwise (suc a / 2) (b / 2),
  more_digits (λ c. zero) min a (suc a / 2) (suc a / 2) (b / 2) (omega arith) (omega arith),
)

or_nothing : (b : ℕ) → bit_or 0 b ≡ b
or_nothing b = bit_or-bitwise 0 b

and_nothing : (b : ℕ) → bit_and 0 b ≡ 0
and_nothing b = bit_and-bitwise 0 b

or_step : (a b : ℕ) → bit_or a b ≡ bit_or (a / 2) (b / 2) * 2 + max (a % 2) (b % 2)
or_step zero b = omega (arith, or_nothing b, or_nothing (b / 2))
or_step (suc a) b = or_low_digit a b

and_step : (a b : ℕ) → bit_and a b ≡ bit_and (a / 2) (b / 2) * 2 + min (a % 2) (b % 2)
and_step zero b = omega (arith, and_nothing b, and_nothing (b / 2))
and_step (suc a) b = and_low_digit a b

-- `x` doubled `k` times.
abbrev pub doubled : ℕ → ℕ → ℕ
doubled x zero = x
doubled x (suc k) = doubled x k * 2

-- `k` ones.
abbrev pub ones : ℕ → ℕ
ones zero = 0
ones (suc k) = ones k * 2 + 1

or_zero_fuel : (n a : ℕ) → a ≤ n → bit_or a 0 ≡ a
or_zero_fuel n zero h = or_nothing 0
or_zero_fuel zero (suc a) h = absurd (omega arith)
or_zero_fuel (suc n) (suc a) h =
    omega (arith, or_low_digit a 0, or_zero_fuel n (suc a / 2) (omega arith))

and_zero_fuel : (n a : ℕ) → a ≤ n → bit_and a 0 ≡ 0
and_zero_fuel n zero h = and_nothing 0
and_zero_fuel zero (suc a) h = absurd (omega arith)
and_zero_fuel (suc n) (suc a) h =
    omega (arith, and_low_digit a 0, and_zero_fuel n (suc a / 2) (omega arith))

pub or_field : (k x y : ℕ) → y < doubled 1 k → bit_or (doubled x k) y ≡ doubled x k + y
or_field zero x y h =
    let none_left : y ≡ 0 = omega arith in
    ap (bit_or x) none_left ∙ or_zero_fuel x x (omega arith) ∙ (omega arith)
or_field (suc k) x y h =
    let d = doubled x k in
    let half : bit_or (d * 2 / 2) (y / 2) ≡ bit_or d (y / 2) =
      ap (λ t. bit_or t (y / 2)) (omega arith) in
    omega (arith, or_step (d * 2) y, half, or_field k x (y / 2) (omega arith))

pub and_field : (k x y : ℕ) → y < doubled 1 k → bit_and (doubled x k + y) (ones k) ≡ y
and_field zero x y h = and_zero_fuel (x + y) (x + y) (omega arith) ∙ (omega arith)
and_field (suc k) x y h =
    let d = doubled x k in
    let o = ones k in
    let half : bit_and ((d * 2 + y) / 2) ((o * 2 + 1) / 2) ≡ bit_and (d + y / 2) o =
      ap (λ t. bit_and t ((o * 2 + 1) / 2)) (omega arith)
      ∙ ap (bit_and (d + y / 2)) (omega arith) in
    omega (arith, and_step (d * 2 + y) (o * 2 + 1), half, and_field k x (y / 2) (omega arith))
