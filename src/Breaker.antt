-- ===== src/Breaker.antt =====
-- common/circuit_breaker.cpp and circuit_breaker.h: one circuit breaker. The mutex serialises the
-- methods, so each is one function on the state; the steady clock is an argument of each call.
mod Transitions
mod Runs
mod Manager
mod Tests
use my_taskflow_system.Common.{ℕ, ◌-◌, ◌/◌, Bool, true, false, Text, codes, leb, if◌then◌else◌}
use my_taskflow_system.Common.Int.{ℤ, pos, leb_ℤ, increment}

pub data CircuitState : Type 0 where
  closed open_ half_open : CircuitState

-- CircuitBreaker::Config
pub record Config : Type 0 where
  pub failure_threshold : ℤ
  pub recovery_timeout_seconds : ℤ
  pub success_threshold : ℤ

-- The constructor of Config.
abbrev pub default_config : Config
default_config = record {
  failure_threshold = pos 3;
  recovery_timeout_seconds = pos 30;
  success_threshold = pos 1;
}

-- Time points of the steady clock are nanoseconds from its epoch.
pub record CircuitBreaker : Type 0 where
  pub name : Text
  pub config : Config
  pub state : CircuitState
  pub failure_count : ℤ
  pub success_count : ℤ
  pub last_failure_time : ℕ

-- The constructor: a default time point is the epoch.
unfoldable pub new : Text → Config → CircuitBreaker
new name config = record {
  name = name;
  config = config;
  state = closed;
  failure_count = pos 0;
  success_count = pos 0;
  last_failure_time = 0;
}

unfoldable pub trip_open : CircuitBreaker → CircuitBreaker
trip_open b = record b { state = open_; success_count = pos 0 }

unfoldable pub reset_to_closed : CircuitBreaker → CircuitBreaker
reset_to_closed b = record b { state = closed; failure_count = pos 0; success_count = pos 0 }

-- No method calls it; `record_success` repeats its body.
unfoldable pub attempt_reset : CircuitBreaker → CircuitBreaker
unfolding reset_to_closed
attempt_reset b = if leb_ℤ b.config.success_threshold b.success_count then reset_to_closed b else b

unfoldable pub reset : CircuitBreaker → CircuitBreaker
unfolding reset_to_closed
reset b = reset_to_closed b

-- duration_cast<seconds>(now - last_failure_time_).count(); the steady clock does not go back.
abbrev pub elapsed : CircuitBreaker → ℕ → ℕ
elapsed b now = (now - b.last_failure_time) / 1000000000

-- The `switch` of allowRequest.
unfoldable pub allow_in : CircuitState → ℕ → CircuitBreaker → Bool × CircuitBreaker
allow_in closed now b = (true, b)
allow_in open_ now b =
    if leb_ℤ b.config.recovery_timeout_seconds (pos (elapsed b now))
    then (true, record b { state = half_open })
    else (false, b)
allow_in half_open now b = (true, b)

unfoldable pub allow_request : ℕ → CircuitBreaker → Bool × CircuitBreaker
unfolding allow_in
allow_request now b = allow_in b.state now b

unfoldable pub succeed_in : CircuitState → CircuitBreaker → CircuitBreaker
unfolding reset_to_closed
succeed_in half_open b =
    let c = record b { success_count = increment b.success_count } in
    if leb_ℤ c.config.success_threshold c.success_count then reset_to_closed c else c
succeed_in closed b = record b { failure_count = pos 0 }
succeed_in open_ b = b

unfoldable pub record_success : CircuitBreaker → CircuitBreaker
unfolding succeed_in
record_success b = succeed_in b.state b

unfoldable pub fail_in : CircuitState → CircuitBreaker → CircuitBreaker
unfolding trip_open
fail_in half_open b = trip_open b
fail_in closed b = if leb_ℤ b.config.failure_threshold b.failure_count then trip_open b else b
fail_in open_ b = b

unfoldable pub record_failure : ℕ → CircuitBreaker → CircuitBreaker
unfolding fail_in
record_failure now b =
    fail_in b.state
      (record b { failure_count = increment b.failure_count; last_failure_time = now })

unfoldable pub get_state_string : CircuitBreaker → Text
get_state_string b = elim b.state [
  | closed ↦ codes "CLOSED"
  | open_ ↦ codes "OPEN"
  | half_open ↦ codes "HALF_OPEN"
]
