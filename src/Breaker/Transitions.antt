-- ===== src/Breaker/Transitions.antt =====
-- What one call does to a circuit breaker.
use my_taskflow_system.Common.{ℕ, ◌≡◌, ◌⊎◌, ◌↔◌, false, arith}
use my_taskflow_system.Common.Int.{pos, ◌≤ℤ◌, ◌<ℤ◌, int_max}
use my_taskflow_system.Breaker.{
  CircuitState, closed, open_, half_open, CircuitBreaker, reset, allow_request, record_success,
  record_failure, elapsed,
}

-- The counters of a breaker in each state, for positive thresholds in the range of int.
pub record IsValid (b : CircuitBreaker) : Type 0 where
  pub failure_positive : pos 0 <ℤ b.config.failure_threshold
  pub success_positive : pos 0 <ℤ b.config.success_threshold
  pub success_int : b.config.success_threshold ≤ℤ pos int_max
  pub closed_below : b.state ≡ closed → b.failure_count <ℤ b.config.failure_threshold
  pub half_open_below : b.state ≡ half_open → b.success_count <ℤ b.config.success_threshold
  pub half_open_nonneg : pos 0 ≤ℤ b.success_count
  pub others_zero : (b.state ≡ closed) ⊎ (b.state ≡ open_) → b.success_count ≡ pos 0

-- The calls of a breaker, with the time at which they read the clock.
pub data Call : Type 0 where
  allow : ℕ → Call
  success : Call
  failure : ℕ → Call
  resets : Call

unfoldable pub step : CircuitBreaker → Call → CircuitBreaker
step b (allow now) = (allow_request now b).1
step b success = record_success b
step b (failure now) = record_failure now b
step b resets = reset b

-- Every call keeps the counters below the thresholds of the state that the breaker is in.
pub step-IsValid : (b : CircuitBreaker) (c : Call) → IsValid b → IsValid (step b c)
unfolding step allow_request record_success record_failure reset
step-IsValid b (allow now) v = ground arith
step-IsValid b success v = ground arith
step-IsValid b (failure now) v = ground arith
step-IsValid b resets v = ground arith

-- The edges of the state diagram.
infix 40 ◌⟶◌
pub data ◌⟶◌ : CircuitState → CircuitState → Type 0 where
  stay : {s : CircuitState} → s ⟶ s
  trip : closed ⟶ open_
  probe : open_ ⟶ half_open
  reopen : half_open ⟶ open_
  recover : half_open ⟶ closed

-- Every call but reset follows an edge of the diagram: an open breaker never closes directly, and
-- a closed one never becomes half open.
pub step-⟶ : (b : CircuitBreaker) (c : Call) → (c ≡ resets) ⊎ (b.state ⟶ (step b c).state)
unfolding step allow_request record_success record_failure
step-⟶ b c = grind (arith, stay, trip, probe, reopen, recover)

-- A request is refused exactly when the breaker is open and the recovery timeout has not passed; a
-- refusal leaves the breaker as it was.
pub allow_request-refuses :
    (b : CircuitBreaker) (now : ℕ)
    → (((allow_request now b).0 ≡ false)
        ↔ ((b.state ≡ open_) × (pos (elapsed b now) <ℤ b.config.recovery_timeout_seconds)))
      × ((allow_request now b).0 ≡ false → (allow_request now b).1 ≡ b)
unfolding allow_request
allow_request-refuses b now = ((λ h. ground arith, λ h. ground arith), λ h. ground arith)
