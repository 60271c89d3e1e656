-- ===== src/Utils/Snowflake.antt =====
-- backend/utils/snowflake.py: `Snowflake.generate` and `Snowflake.parse`. A time is the number of
-- milliseconds since `EPOCH`, in 2010, and the clock is the list of its readings to come. Node
-- has the search for a node, and `Snowflake.init`.
pub mod Bits
pub mod Order
pub mod Liveness
pub mod Node
use rag_service.Prelude.{
  ℕ, zero, suc, ◌+◌, ◌-◌, ◌*◌, ◌/◌, ◌^◌, Bool, true, false, List, [], ◌∷◌, ltb, leb, ◌==◌,
  if◌then◌else◌, Option, none, some,
}
use Prim.Native.Nat.{bit_and, bit_or}

-- `x << k` and `x >> k`
infixl 60 ◌<<◌
abbrev pub ◌<<◌ : ℕ → ℕ → ℕ
x << k = x * 2 ^ k

infixl 60 ◌>>◌
abbrev pub ◌>>◌ : ℕ → ℕ → ℕ
x >> k = x / 2 ^ k

-- `SnowflakeConfig`
abbrev pub worker_id_shift : ℕ
worker_id_shift = 12

abbrev pub datacenter_id_shift : ℕ
datacenter_id_shift = 17

abbrev pub timestamp_left_shift : ℕ
timestamp_left_shift = 22

abbrev pub max_worker_id : ℕ
max_worker_id = 31

abbrev pub max_datacenter_id : ℕ
max_datacenter_id = 31

abbrev pub sequence_mask : ℕ
sequence_mask = 4095

abbrev pub epoch : ℕ
epoch = 1262275200000

abbrev pub clock_backward_tolerance_ms : ℕ
clock_backward_tolerance_ms = 10000

-- The generator behind `init`; `none` is the last time -1 of a new one.
pub record Snowflake : Type 0 where
  pub datacenter_id : ℕ
  pub worker_id : ℕ
  pub sequence : ℕ
  pub last_timestamp : Option ℕ
  pub initialized : Bool

-- `_till_next_ms`: the first reading behind the last time, and the readings that are left; `none` where
-- the clock does not get there.
unfoldable pub till_next_ms : ℕ → List ℕ → Option (ℕ × List ℕ)
till_next_ms last_timestamp [] = none
till_next_ms last_timestamp (ts ∷ readings) =
    let rest = till_next_ms last_timestamp readings in
    if leb ts last_timestamp then rest else some (ts, readings)

-- `generate` gives a number, raises, or is still waiting for the clock.
pub data Generated : Type 0 where
  issued : ℕ → Snowflake → List ℕ → Generated
  not_initialized clock_moved_back waiting : Generated

-- `((timestamp - EPOCH) << …) | (datacenter_id << …) | (worker_id << …) | sequence`
unfoldable pub compose : ℕ → Snowflake → ℕ
compose timestamp s =
    bit_or
      (bit_or (bit_or (timestamp << timestamp_left_shift) (s.datacenter_id << datacenter_id_shift))
        (s.worker_id << worker_id_shift))
      s.sequence

-- The end of `generate`, by the time and the sequence that were found.
pub issue : Snowflake → ℕ → ℕ → List ℕ → Generated
unfolding compose
issue s timestamp sequence readings =
    let s' : Snowflake = record s { sequence = sequence; last_timestamp = some timestamp } in
    issued (compose timestamp s') s' readings

-- `if self.sequence == 0: timestamp = self._till_next_ms(self.last_timestamp)`
wait_next : Snowflake → ℕ → ℕ → List ℕ → Generated
unfolding issue
wait_next s sequence last_timestamp readings = elim (till_next_ms last_timestamp readings) [
  | none ↦ waiting
  | some (timestamp, rest) ↦ issue s timestamp sequence rest
]

-- The branch of one millisecond, or of a later one.
number_in : Snowflake → ℕ → ℕ → List ℕ → Generated
unfolding wait_next issue
number_in s last_timestamp timestamp readings =
    if timestamp == last_timestamp
    then (let sequence = bit_and (s.sequence + 1) sequence_mask in
        if sequence == 0
        then wait_next s 0 last_timestamp readings
        else issue s timestamp sequence readings)
    else issue s timestamp 0 readings

-- A reading behind `last_timestamp` is never equal to it.
wait_back : Snowflake → ℕ → List ℕ → Generated
unfolding number_in
wait_back s last_timestamp readings = elim (till_next_ms last_timestamp readings) [
  | none ↦ waiting
  | some (timestamp, rest) ↦ number_in s last_timestamp timestamp rest
]

generate_at : Snowflake → Option ℕ → ℕ → List ℕ → Generated
unfolding wait_back issue
generate_at s none timestamp readings = issue s timestamp 0 readings
generate_at s (some last_timestamp) timestamp readings =
    if ltb timestamp last_timestamp
    then (if leb (last_timestamp - timestamp) clock_backward_tolerance_ms
        then wait_back s last_timestamp readings
        else clock_moved_back)
    else number_in s last_timestamp timestamp readings

-- `generate`; the first reading is the one at its beginning.
unfoldable pub generate : Snowflake → List ℕ → Generated
unfolding generate_at
generate s [] = if s.initialized then waiting else not_initialized
generate s (timestamp ∷ readings) =
    if s.initialized then generate_at s s.last_timestamp timestamp readings else not_initialized

-- `SnowflakeInfo`, without the text of the time
pub record SnowflakeInfo : Type 0 where
  pub timestamp : ℕ
  pub datacenter_id : ℕ
  pub worker_id : ℕ
  pub sequence : ℕ

unfoldable pub parse : ℕ → SnowflakeInfo
parse snowflake_id = record {
  timestamp = (snowflake_id >> timestamp_left_shift) + epoch;
  datacenter_id = bit_and (snowflake_id >> datacenter_id_shift) max_datacenter_id;
  worker_id = bit_and (snowflake_id >> worker_id_shift) max_worker_id;
  sequence = bit_and snowflake_id sequence_mask;
}
