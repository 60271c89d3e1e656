-- ===== src/Utils/Snowflake/Order.antt =====
-- The numbers of one generator grow, whatever its clock does, and hold the node, the time and the
-- sequence that they were made of.
use mathlib.Core.Path.{subst}
use rag_service.Prelude.{
  ℕ, ◌+◌, ◌*◌, ◌/◌, ◌-◌, ◌≤◌, ◌<◌, Bool, true, false, List, [], ◌∷◌, ltb, leb, ◌==◌, if◌then◌else◌,
  Option, none, some, ◌≡◌, refl, sym, ap, ◌∙◌, ◌⊎◌, inl, inr, arith, Bool-cases, Option-cases,
  none-ne-some, some-inj,
}
use Prim.Native.Nat.{bit_and, bit_or}
use rag_service.Utils.Snowflake.{
  Snowflake, Generated, issued, not_initialized, waiting, till_next_ms, compose, issue, wait_next,
  number_in, wait_back, generate_at, generate, parse, ◌<<◌, epoch, sequence_mask,
  clock_backward_tolerance_ms,
}
use rag_service.Utils.Snowflake.Bits.{doubled, ones, or_field, and_field}

-- The ranges that `init` checks, and the one of the sequence.
pub record IsNode (s : Snowflake) : Type 0 where
  pub datacenter : s.datacenter_id < 32
  pub worker : s.worker_id < 32
  pub counted : s.sequence < 4096

compose-sum :
    (timestamp : ℕ) (s : Snowflake)
    → IsNode s
    → compose timestamp s
      ≡ timestamp * 4194304 + s.datacenter_id * 131072 + s.worker_id * 4096 + s.sequence
unfolding compose
compose-sum t s node =
    let dc = node.datacenter in
    let wk = node.worker in
    let sq = node.counted in
    let first : bit_or (t << 22) (s.datacenter_id << 17) ≡ t * 4194304 + s.datacenter_id * 131072 =
      ap (λ x. bit_or x (s.datacenter_id << 17)) (omega arith)
      ∙ or_field 22 t (s.datacenter_id * 131072) (omega arith)
      ∙ (omega arith) in
    let second : bit_or (bit_or (t << 22) (s.datacenter_id << 17)) (s.worker_id << 12)
        ≡ t * 4194304 + s.datacenter_id * 131072 + s.worker_id * 4096 =
      ap (λ x. bit_or x (s.worker_id << 12)) (first ∙ (omega arith))
      ∙ or_field 17 (t * 32 + s.datacenter_id) (s.worker_id * 4096) (omega arith)
      ∙ (omega arith) in
    ap (λ x. bit_or x s.sequence) (second ∙ (omega arith))
    ∙ or_field 12 ((t * 32 + s.datacenter_id) * 32 + s.worker_id) s.sequence (omega arith)
    ∙ (omega arith)

masked : (k x y n : ℕ) → n ≡ doubled x k + y → y < doubled 1 k → bit_and n (ones k) ≡ y
masked k x y n e h = ap (λ m. bit_and m (ones k)) e ∙ and_field k x y h

-- Parsing a number gives back the node and the sequence that it was made of, and the time since
-- 1970.
pub parse-compose :
    (timestamp : ℕ) (s : Snowflake)
    → IsNode s
    → parse (compose timestamp s) ≡ record {
      timestamp = timestamp + epoch;
      datacenter_id = s.datacenter_id;
      worker_id = s.worker_id;
      sequence = s.sequence;
    }
unfolding parse
parse-compose t s node =
    let dc = node.datacenter in
    let wk = node.worker in
    let sq = node.counted in
    let x = t * 4194304 + s.datacenter_id * 131072 + s.worker_id * 4096 + s.sequence in
    let time : x / 4194304 ≡ t = omega arith in
    let center : bit_and (x / 131072) 31 ≡ s.datacenter_id =
      masked 5 t s.datacenter_id (x / 131072) (omega arith) (omega arith) in
    let worker : bit_and (x / 4096) 31 ≡ s.worker_id =
      masked 5 (t * 32 + s.datacenter_id) s.worker_id (x / 4096) (omega arith) (omega arith) in
    let sequence : bit_and x 4095 ≡ s.sequence =
      masked 12 ((t * 32 + s.datacenter_id) * 32 + s.worker_id) s.sequence x (omega arith)
        (omega arith) in
    rw (compose-sum t s node, time, center, worker, sequence)

pub till_next_ms-lt :
    (last : ℕ) (readings : List ℕ) (t : ℕ) (rest : List ℕ)
    → till_next_ms last readings ≡ some (t, rest)
    → last < t
unfolding till_next_ms
till_next_ms-lt last [] t rest h = absurd (none-ne-some (t, rest) h)
till_next_ms-lt last (r ∷ readings) t rest h = elim (Bool-cases (leb r last)) [
  | inl e ↦ till_next_ms-lt last readings t rest (rw e at h)
  | inr e ↦ let same : r ≡ t = ap (λ (p : ℕ × List ℕ). p.0) (some-inj (rw e at h)) in ground arith
]

-- The time and the sequence come behind those of the generator.
abbrev Behind : Option ℕ → ℕ → ℕ → ℕ → Type 0
Behind none sequence timestamp next = Unit
Behind (some last) sequence timestamp next =
    (last < timestamp) ⊎ ((last ≡ timestamp) × (sequence < next))

abbrev Later : Snowflake → Generated → Type 0
Later s (issued id s' rest) =
    (t : ℕ) × (q : ℕ) × (s' ≡ record s { sequence = q; last_timestamp = some t })
    × (id ≡ compose t s')
    × (q < 4096)
    × Behind s.last_timestamp s.sequence t q
Later s _ = Unit

-- The sequence that follows in one millisecond.
next_sequence :
    (q : ℕ)
    → q < 4096
    → (bit_and (q + 1) sequence_mask ≡ 0)
      ⊎ ((bit_and (q + 1) sequence_mask ≡ q + 1) × (q + 1 < 4096))
next_sequence q h = elim (Bool-cases (q == 4095)) [
  | inl e ↦ inl (masked 12 1 0 (q + 1) (ground arith) (omega arith))
  | inr e ↦ inr (masked 12 0 (q + 1) (q + 1) (omega arith) (ground arith), ground arith)
]

issue-Later :
    (s : Snowflake) (t q : ℕ) (readings : List ℕ)
    → q < 4096
    → Behind s.last_timestamp s.sequence t q
    → Later s (issue s t q readings)
unfolding issue
issue-Later s t q readings h b = (t, q, refl, refl, h, b)

wait_next-Later :
    (s : Snowflake) (last : ℕ) (readings : List ℕ)
    → s.last_timestamp ≡ some last
    → Later s (wait_next s 0 last readings)
unfolding wait_next
wait_next-Later s last readings e = elim (Option-cases (till_next_ms last readings)) [
  | inl n ↦ rw (wait_next, n) tt
  | inr ((t, rest), n) ↦
      rw (wait_next, n)
        (issue-Later s t 0 rest (omega arith) (
          subst (λ l. Behind l s.sequence t 0) (sym e)
            (inl (till_next_ms-lt last readings t rest n))))
]

number_in-Later :
    (s : Snowflake) (last t : ℕ) (readings : List ℕ)
    → s.last_timestamp ≡ some last
    → s.sequence < 4096
    → last ≤ t
    → Later s (number_in s last t readings)
unfolding number_in
number_in-Later s last t readings e q le = elim (Bool-cases (t == last)) [
  | inr later ↦
      rw (number_in, later)
        (issue-Later s t 0 readings (omega arith)
          (subst (λ l. Behind l s.sequence t 0) (sym e) (inl (ground arith))))
  | inl same ↦ elim (next_sequence s.sequence q) [
    | inl over ↦ rw (number_in, same, over) (wait_next-Later s last readings e)
    | inr (next, fits) ↦
        let some_left : (s.sequence + 1 == 0) ≡ false = ground arith in
        rw (number_in, same, next, some_left)
          (issue-Later s t (s.sequence + 1) readings fits (
            subst (λ l. Behind l s.sequence t (s.sequence + 1)) (sym e)
              (inr (ground arith, omega arith))))
  ]
]

wait_back-Later :
    (s : Snowflake) (last : ℕ) (readings : List ℕ)
    → s.last_timestamp ≡ some last
    → s.sequence < 4096
    → Later s (wait_back s last readings)
unfolding wait_back
wait_back-Later s last readings e q = elim (Option-cases (till_next_ms last readings)) [
  | inl n ↦ rw (wait_back, n) tt
  | inr ((t, rest), n) ↦
      let lt = till_next_ms-lt last readings t rest n in
      rw (wait_back, n) (number_in-Later s last t rest e q (omega arith))
]

generate_at-Later :
    (s : Snowflake) (before : Option ℕ) (t : ℕ) (readings : List ℕ)
    → s.last_timestamp ≡ before
    → s.sequence < 4096
    → Later s (generate_at s before t readings)
unfolding generate_at
generate_at-Later s none t readings e q =
    issue-Later s t 0 readings (omega arith) (subst (λ l. Behind l s.sequence t 0) (sym e) tt)
generate_at-Later s (some last) t readings e q = elim (Bool-cases (ltb t last)) [
  | inr later ↦ rw later (number_in-Later s last t readings e q (ground arith))
  | inl back ↦ elim (Bool-cases (leb (last - t) clock_backward_tolerance_ms)) [
    | inl near ↦ rw (back, near) (wait_back-Later s last readings e q)
    | inr far ↦ rw (back, far) tt
  ]
]

guarded :
    (s : Snowflake) (b : Bool) (g : Generated)
    → Later s g
    → Later s (if b then g else not_initialized)
guarded s true g h = h
guarded s false g h = tt

generate-Later :
    (s : Snowflake) (readings : List ℕ) → s.sequence < 4096 → Later s (generate s readings)
unfolding generate
generate-Later s [] q = guarded s s.initialized waiting tt
generate-Later s (t ∷ readings) q =
    guarded s s.initialized _ (generate_at-Later s s.last_timestamp t readings refl q)

-- What one number says of the generator that it leaves.
issued-Later :
    (s s' : Snowflake) (readings rest : List ℕ) (id : ℕ)
    → s.sequence < 4096
    → generate s readings ≡ issued id s' rest
    → Later s (issued id s' rest)
issued-Later s s' readings rest id q e = subst (Later s) e (generate-Later s readings q)

larger :
    (s : Snowflake) (t q t' q' : ℕ)
    → s.datacenter_id < 32
    → s.worker_id < 32
    → q < 4096
    → q' < 4096
    → (t < t') ⊎ ((t ≡ t') × (q < q'))
    → t * 4194304 + s.datacenter_id * 131072 + s.worker_id * 4096 + q
      < t' * 4194304 + s.datacenter_id * 131072 + s.worker_id * 4096 + q'
larger s t q t' q' d w h h' (inl lt) = omega arith
larger s t q t' q' d w h h' (inr (same, lt)) = omega arith

abbrev at_time : Snowflake → ℕ → ℕ → Snowflake
at_time s t q = record s { sequence = q; last_timestamp = some t }

at_time-IsNode : (s : Snowflake) (t q : ℕ) → IsNode s → q < 4096 → IsNode (at_time s t q)
at_time-IsNode s t q node h = record {
  datacenter = node.datacenter;
  worker = node.worker;
  counted = h;
}

increasing_from :
    (s : Snowflake) (t q id' : ℕ) (s'' : Snowflake) (readings rest : List ℕ)
    → IsNode s
    → q < 4096
    → generate (at_time s t q) readings ≡ issued id' s'' rest
    → (compose t (at_time s t q) < id') × IsNode s''
increasing_from s t q id' s'' readings rest node h e =
    let (t', q', next, made, fits, behind) =
      issued-Later (at_time s t q) s'' readings rest id' h e in
    let value : id' ≡ t' * 4194304 + s.datacenter_id * 131072 + s.worker_id * 4096 + q' =
      made
      ∙ ap (compose t') next
      ∙ compose-sum t' (at_time s t' q') (at_time-IsNode s t' q' node fits) in
    let first = compose-sum t (at_time s t q) (at_time-IsNode s t q node h) in
    let grows = larger s t q t' q' node.datacenter node.worker h fits behind in
    (omega arith, subst IsNode (sym next) (at_time-IsNode s t' q' node fits))

-- Of two numbers that a generator gives one after the other, the second is larger, whatever the
-- clock shows in between, as long as a number is given at all; and the generator that is left is again
-- in its ranges.
pub generate_increasing :
    (s s' s'' : Snowflake) (readings rest readings' rest' : List ℕ) (id id' : ℕ)
    → IsNode s
    → generate s readings ≡ issued id s' rest
    → generate s' readings' ≡ issued id' s'' rest'
    → (id < id') × IsNode s''
generate_increasing s s' s'' readings rest readings' rest' id id' node e e' =
    let (t, q, next, made, fits, _) = issued-Later s s' readings rest id node.counted e in
    let again : generate (at_time s t q) readings' ≡ issued id' s'' rest' =
      subst (λ x. generate x readings' ≡ issued id' s'' rest') next e' in
    let (grows, ranges) = increasing_from s t q id' s'' readings' rest' node fits again in
    let first : id ≡ compose t (at_time s t q) = made ∙ ap (compose t) next in (omega arith, ranges)
