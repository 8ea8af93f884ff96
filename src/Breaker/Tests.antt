-- ===== src/Breaker/Tests.antt =====
-- The circuit breaker at concrete inputs.
use my_taskflow_system.Common.{◌≡◌, refl, ◌⊎◌, true, [], codes, arith, Text}
use my_taskflow_system.Common.Int.{pos}
use my_taskflow_system.Common.Maps.{put}
use my_taskflow_system.Breaker.{
  closed, open_, half_open, CircuitBreaker, default_config, new, allow_request,
}
use my_taskflow_system.Breaker.Transitions.{IsValid, step, allow, resets, step-IsValid, step-⟶, ◌⟶◌}
use my_taskflow_system.Breaker.Runs.{succeed_times, recovery}
use my_taskflow_system.Breaker.Manager.{CircuitBreakerManager}

abbrev w1 : Text
w1 = codes "w1"

abbrev fresh : CircuitBreaker
fresh = new w1 default_config

abbrev tripped : CircuitBreaker
tripped = record {
  name = w1;
  config = record {
    failure_threshold = pos 3;
    recovery_timeout_seconds = pos 30;
    success_threshold = pos 2;
  };
  state = open_;
  failure_count = pos 3;
  success_count = pos 0;
  last_failure_time = 5000000000;
}

fresh-IsValid : IsValid fresh
unfolding new
fresh-IsValid = ground arith

tripped-IsValid : IsValid tripped
tripped-IsValid = ground arith

step-IsValid_example : IsValid (step tripped (allow 35000000000))
step-IsValid_example = step-IsValid tripped (allow 35000000000) tripped-IsValid

step-⟶_example : (allow 35000000000 ≡ resets) ⊎ (open_ ⟶ (step tripped (allow 35000000000)).state)
step-⟶_example = step-⟶ tripped (allow 35000000000)

recovery_example :
    let c = (allow_request 35000000000 tripped).1 in
    ((allow_request 35000000000 tripped).0 ≡ true)
    × (c.state ≡ half_open)
    × ((succeed_times 1 c).state ≡ half_open)
    × ((succeed_times 2 c).state ≡ closed)
    × ((succeed_times 2 c).failure_count ≡ pos 0)
recovery_example = recovery tripped 30 1 35000000000 refl refl refl refl (omega arith) (omega arith)

abbrev one_breaker : CircuitBreakerManager
one_breaker = record { breakers = put w1 tripped [] }
