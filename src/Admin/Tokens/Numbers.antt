-- ===== src/Admin/Tokens/Numbers.antt =====
-- Reading back a decimal text, and values that are not empty or zero.
use rag_service.Prelude.{
  ℕ, zero, suc, ◌≤◌, ◌<◌, Text, true, ◌&&◌, [], ◌∷◌, some, leb, all, All, ◌≡◌, ◌≢◌, refl, ap, ◌∙◌,
  arith, show_nat, read_nat, show_nat-digits, show_nat-ne, read-show,
}
use rag_service.Admin.Exec.{ok}
use rag_service.Admin.Tokens.{filled, nonzero, int_of}

all_digits :
    (s : Text) → All (λ c. (48 ≤ c) × (c ≤ 57)) s → all (λ d. leb 48 d && leb d 57) s ≡ true
all_digits [] h = refl
all_digits (c ∷ s) h = ground (arith, all_digits s)

int_of_text : (s : Text) → s ≢ [] → All (λ c. (48 ≤ c) × (c ≤ 57)) s → int_of s ≡ ok (read_nat s)
unfolding int_of
int_of_text [] ne h = absurd (ne refl)
int_of_text (c ∷ s) ne h = rw (all_digits (c ∷ s) h)

pub int_of-show : (n : ℕ) → int_of (show_nat n) ≡ ok n
int_of-show n = int_of_text (show_nat n) (show_nat-ne n) (show_nat-digits n) ∙ ap ok (read-show n)

pub filled_text : (s : Text) → s ≢ [] → filled (some s) ≡ some s
filled_text [] ne = absurd (ne refl)
filled_text (c ∷ s) ne = refl

pub nonzero_number : (n : ℕ) → 0 < n → nonzero (some n) ≡ some n
nonzero_number zero h = elim h [ ]
nonzero_number (suc n) h = refl
