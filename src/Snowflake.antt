-- ===== src/Snowflake.antt =====
-- common/snowflake.cpp and snowflake.h: the generator of 64-bit task ids. The system clock is the
-- list of the readings that it will give, in milliseconds since 1970; an int64_t is its bit pattern
-- where the code shifts it.
mod Generator
mod Ids
mod Tests
use Prim.Native.Nat.{bit_and, bit_or}
use my_taskflow_system.Common.{
  ℕ, ◌+◌, ◌-◌, ◌*◌, ◌%◌, ◌^◌, Option, none, some, List, [], ◌∷◌, leb, ◌==◌, if◌then◌else◌,
}
use my_taskflow_system.Common.Int.{ℤ, pos, negsuc, leb_ℤ, ltb_ℤ, eq_ℤ}

abbrev pub twepoch : ℕ
twepoch = 1609459200000

abbrev pub worker_id_bits : ℕ
worker_id_bits = 5

abbrev pub datacenter_id_bits : ℕ
datacenter_id_bits = 5

abbrev pub sequence_bits : ℕ
sequence_bits = 12

abbrev pub max_worker_id : ℕ
max_worker_id = 2 ^ worker_id_bits - 1

abbrev pub worker_id_shift : ℕ
worker_id_shift = sequence_bits

abbrev pub datacenter_id_shift : ℕ
datacenter_id_shift = sequence_bits + worker_id_bits

abbrev pub timestamp_left_shift : ℕ
timestamp_left_shift = sequence_bits + worker_id_bits + datacenter_id_bits

abbrev pub sequence_mask : ℕ
sequence_mask = 2 ^ sequence_bits - 1

pub record Snowflake : Type 0 where
  pub worker_id : ℕ
  pub datacenter_id : ℕ
  pub sequence : ℕ
  pub last_timestamp : ℤ

-- The constructor.
abbrev pub new : Snowflake
new = record { worker_id = 0; datacenter_id = 0; sequence = 0; last_timestamp = negsuc 0 }

-- none is the exception std::invalid_argument.
unfoldable pub init : ℤ → Snowflake → Option Snowflake
init (pos n) s = if leb n max_worker_id then some (record s { worker_id = n }) else none
init (negsuc n) s = none

-- x << k on 64 bits.
abbrev pub shl : ℕ → ℕ → ℕ
shl x k = x * 2 ^ k % 2 ^ 64

-- The bits of timestamp - kTwepoch.
abbrev pub since_twepoch : ℕ → ℕ
since_twepoch timestamp = (timestamp + 2 ^ 64 - twepoch) % 2 ^ 64

-- The returned expression of nextIdLocked.
unfoldable pub compose : ℕ → Snowflake → ℕ
compose timestamp s =
    bit_or
      (bit_or
        (bit_or (shl (since_twepoch timestamp) timestamp_left_shift)
          (shl s.datacenter_id datacenter_id_shift))
        (shl s.worker_id worker_id_shift))
      s.sequence

-- The loop reads the clock until it is past last_timestamp_; none: it is still waiting when the
-- readings end.
unfoldable pub wait_next_millis : ℤ → ℕ → List ℕ → Option (ℕ × List ℕ)
wait_next_millis last timestamp [] =
    if leb_ℤ (pos timestamp) last then none else some (timestamp, [])
wait_next_millis last timestamp (t ∷ readings) =
    let rest = wait_next_millis last t readings in
    if leb_ℤ (pos timestamp) last then rest else some (timestamp, t ∷ readings)

-- What a call of nextId comes to: an id, the exception "Clock moved backwards", or a wait that the
-- given readings do not end.
pub data Outcome : Type 0 where
  id : ℕ → Outcome
  clock_moved_backwards : Outcome
  waiting : Outcome

unfoldable pub finish : ℕ → List ℕ → Snowflake → Outcome × Snowflake × List ℕ
finish timestamp readings s =
    let done = record s { last_timestamp = pos timestamp } in
    (id (compose timestamp done), done, readings)

-- The branch of a millisecond that is already in use.
unfoldable pub same_millis : ℕ → List ℕ → Snowflake → Outcome × Snowflake × List ℕ
unfolding finish wait_next_millis
same_millis timestamp readings s =
    let bumped = record s { sequence = bit_and (s.sequence + 1) sequence_mask } in
    if bumped.sequence == 0
    then elim (wait_next_millis s.last_timestamp timestamp readings) [
      | none ↦ (waiting, bumped, [])
      | some (later, rest) ↦ finish later rest bumped
    ]
    else finish timestamp readings bumped

unfoldable pub next_id : List ℕ → Snowflake → Outcome × Snowflake × List ℕ
unfolding same_millis finish
next_id [] s = (waiting, s, [])
next_id (timestamp ∷ readings) s =
    if ltb_ℤ (pos timestamp) s.last_timestamp
    then (clock_moved_backwards, s, readings)
    else if eq_ℤ s.last_timestamp (pos timestamp)
    then same_millis timestamp readings s
    else finish timestamp readings (record s { sequence = 0 })
