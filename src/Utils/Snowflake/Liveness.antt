-- ===== src/Utils/Snowflake/Liveness.antt =====
-- A generator whose clock goes on gives a number.
use rag_service.Prelude.{
  ℕ, ◌+◌, ◌-◌, ◌≤◌, true, List, [], ◌∷◌, any, ltb, leb, ◌==◌, if◌then◌else◌, some, ◌≡◌, ◌∙◌, ap,
  refl, arith, Bool-cases, inl, inr,
}
use Prim.Native.Nat.{bit_and}
use rag_service.Utils.Snowflake.{
  Snowflake, Generated, issued, not_initialized, till_next_ms, issue, wait_next, number_in,
  wait_back, generate_at, generate, sequence_mask, clock_backward_tolerance_ms,
}
use rag_service.Utils.Snowflake.Order.{till_next_ms-lt}

abbrev pub IsIssued : Generated → Type 0
IsIssued g = (id : ℕ) × (s' : Snowflake) × (rest : List ℕ) × (g ≡ issued id s' rest)

issue-IsIssued : (s : Snowflake) (t q : ℕ) (rest : List ℕ) → IsIssued (issue s t q rest)
unfolding issue
issue-IsIssued s t q rest = (_, _, rest, refl)

till_live :
    (last : ℕ) (readings : List ℕ)
    → any (ltb last) readings ≡ true
    → (t : ℕ) × (rest : List ℕ) × (till_next_ms last readings ≡ some (t, rest))
unfolding till_next_ms
till_live last [] h = absurd (ground arith)
till_live last (t ∷ readings) h = elim (Bool-cases (leb t last)) [
  | inl e ↦ rw e (till_live last readings (ground arith))
  | inr e ↦ rw e (t, readings, refl)
]

number_in-IsIssued :
    (s : Snowflake) (last t : ℕ) (readings : List ℕ)
    → last ≤ t
    → any (ltb last) (t ∷ readings) ≡ true
    → IsIssued (number_in s last t readings)
unfolding number_in wait_next
number_in-IsIssued s last t readings le h = elim (Bool-cases (t == last)) [
  | inr later ↦ rw (number_in, later) (issue-IsIssued s t 0 readings)
  | inl same ↦ elim (Bool-cases (bit_and (s.sequence + 1) sequence_mask == 0)) [
    | inr left ↦ rw (number_in, same, left) (issue-IsIssued s t _ readings)
    | inl over ↦
        let (t', rest, found) = till_live last readings (ground arith) in
        rw (number_in, same, over, wait_next, found) (issue-IsIssued s t' 0 rest)
  ]
]

generate_at-IsIssued :
    (s : Snowflake) (last t : ℕ) (readings : List ℕ)
    → last - t ≤ 10000
    → any (ltb last) (t ∷ readings) ≡ true
    → IsIssued (generate_at s (some last) t readings)
unfolding generate_at wait_back
generate_at-IsIssued s last t readings near h = elim (Bool-cases (ltb t last)) [
  | inr later ↦ rw (generate_at, later) (number_in-IsIssued s last t readings (ground arith) h)
  | inl back ↦
      let close : leb (last - t) clock_backward_tolerance_ms ≡ true = ground arith in
      let (t', rest, found) = till_live last readings (ground arith) in
      let behind = till_next_ms-lt last readings t' rest found in
      rw (generate_at, back, close, wait_back, found)
        (number_in-IsIssued s last t' rest (omega arith) (ground arith))
]

-- An initialized generator whose last time is known gives a number if the clock, at its first reading, is
-- at most ten seconds behind that time, and some reading comes after it.
pub generate-IsIssued :
    (s : Snowflake) (last t : ℕ) (readings : List ℕ)
    → s.initialized ≡ true
    → s.last_timestamp ≡ some last
    → last - t ≤ 10000
    → any (ltb last) (t ∷ readings) ≡ true
    → IsIssued (generate s (t ∷ readings))
unfolding generate
generate-IsIssued s last t readings on known near h =
    let (id, s', rest, e) = generate_at-IsIssued s last t readings near h in
    (
      id,
      s',
      rest,
      ap (λ b. if b then generate_at s s.last_timestamp t readings else not_initialized) on
          ∙ ap (λ l. generate_at s l t readings) known
          ∙ e,
    )
