-- ===== src/Snowflake/Tests.antt =====
-- The generator at concrete inputs.
use my_taskflow_system.Common.{ℕ, ◌+◌, ◌≡◌, refl, ◌≢◌, none, some, List, [], ◌∷◌, ◌++◌, All, arith}
use my_taskflow_system.Common.Int.{pos, negsuc}
use my_taskflow_system.Snowflake.{
  Snowflake, id, clock_moved_backwards, waiting, new, init, next_id, compose,
}
use my_taskflow_system.Snowflake.Generator.{IsValid, InRange}
use my_taskflow_system.Snowflake.Ids.{IsAscending, ids, ids-IsAscending, next_id_returns}

abbrev t0 : ℕ
t0 = 1700000000000

-- Worker 7 just before its sequence wraps within a millisecond.
abbrev full : Snowflake
full = record { worker_id = 7; datacenter_id = 0; sequence = 4095; last_timestamp = pos t0 }

abbrev third : Snowflake
third = record { worker_id = 3; datacenter_id = 0; sequence = 0; last_timestamp = negsuc 0 }

abbrev readings : List ℕ
readings = t0 ∷ t0 ∷ (t0 + 1) ∷ t0 ∷ (t0 + 2) ∷ []

full-IsValid : IsValid full
full-IsValid = ground arith

third-IsValid : IsValid third
third-IsValid = ground arith

readings-InRange : All InRange readings
readings-InRange = omega arith

init-third : init (pos 3) new ≡ some third
unfolding init
init-third = refl

init_too_large : init (pos 32) new ≡ none
unfolding init
init_too_large = refl

-- The sequence has wrapped to 0 and the call has waited for the next millisecond.
wrapped : next_id readings full ≡ (
  id (compose (t0 + 1) (record full { sequence = 0; last_timestamp = pos (t0 + 1) })),
  record full { sequence = 0; last_timestamp = pos (t0 + 1) },
  t0 ∷ (t0 + 2) ∷ [],
)
unfolding next_id
wrapped = refl

throws : next_id (5 ∷ []) full ≡ (clock_moved_backwards, full, [])
unfolding next_id
throws = refl

ids-IsAscending_example : IsAscending 0 (ids 4 readings third)
ids-IsAscending_example = ids-IsAscending 4 third readings third-IsValid readings-InRange

next_id_returns_example :
    ((next_id (t0 ∷ (t0 ∷ []) ++ (t0 + 1) ∷ []) full).0 ≢ waiting)
    × ((next_id (t0 ∷ (t0 ∷ []) ++ (t0 + 1) ∷ []) full).0 ≢ clock_moved_backwards)
next_id_returns_example = next_id_returns full t0 (t0 + 1) (t0 ∷ []) [] (omega arith) (omega arith)
