-- ===== src/Breaker/Runs.antt =====
-- What sequences of calls do to a circuit breaker.
use my_taskflow_system.Common.{
  ℕ, zero, suc, ◌+◌, ◌*◌, ◌≤◌, ◌<◌, ◌≡◌, refl, ◌∙◌, ap, true, List, [], ◌∷◌, arith, length,
}
use my_taskflow_system.Common.Int.{pos, int_max}
use my_taskflow_system.Breaker.{
  closed, open_, half_open, CircuitBreaker, allow_request, record_success, record_failure,
}
use my_taskflow_system.Breaker.Transitions.{IsValid, Call, step, step-IsValid}

pub run : CircuitBreaker → List Call → CircuitBreaker
run b [] = b
run b (c ∷ cs) = run (step b c) cs

-- Failures reported one after another, at the given times.
unfoldable pub fail_times : CircuitBreaker → List ℕ → CircuitBreaker
fail_times b [] = b
fail_times b (t ∷ ts) = fail_times (record_failure t b) ts

fail_once :
    (b : CircuitBreaker) (k n t : ℕ)
    → b.state ≡ closed
    → b.failure_count ≡ pos k
    → b.config.failure_threshold ≡ pos n
    → suc k < n
    → n ≤ int_max
    → ((record_failure t b).state ≡ closed)
      × ((record_failure t b).failure_count ≡ pos (suc k))
      × ((record_failure t b).config ≡ b.config)
unfolding record_failure
fail_once b k n t s c f h m = ground arith

fail_last :
    (b : CircuitBreaker) (k n t : ℕ)
    → b.state ≡ closed
    → b.failure_count ≡ pos k
    → b.config.failure_threshold ≡ pos n
    → n ≤ suc k
    → n ≤ int_max
    → k < int_max
    → (record_failure t b).state ≡ open_
unfolding record_failure
fail_last b k n t s c f h m w = ground arith

-- A closed breaker that has counted k failures in a row stays closed, and counts on, while the
-- failures that follow stay below its threshold n; with the failure that reaches n it opens.
pub fail_times-trips :
    (b : CircuitBreaker) (k n t : ℕ) (ts : List ℕ)
    → b.state ≡ closed
    → b.failure_count ≡ pos k
    → b.config.failure_threshold ≡ pos n
    → k + length ts + 1 ≡ n
    → n ≤ int_max
    → ((fail_times b ts).state ≡ closed)
      × ((fail_times b ts).failure_count ≡ pos (k + length ts))
      × ((record_failure t (fail_times b ts)).state ≡ open_)
unfolding fail_times
fail_times-trips b k n t [] s c f h m =
    (s, c ∙ ap pos (omega arith), fail_last b k n t s c f (omega arith) m (omega arith))
fail_times-trips b k n t (u ∷ ts) s c f h m =
    let (s', c', e) = fail_once b k n u s c f (omega arith) m in
    let (s'', c'', o) =
      fail_times-trips (record_failure u b) (suc k) n t ts s' c'
        (ap (λ g. g.failure_threshold) e ∙ f) (omega arith) m in
    (s'', c'' ∙ ap pos (omega arith), o)

-- Any calls at all, in any order, keep a breaker valid.
pub run-IsValid : (b : CircuitBreaker) (cs : List Call) → IsValid b → IsValid (run b cs)
unfolding run
run-IsValid b [] v = v
run-IsValid b (c ∷ cs) v = run-IsValid (step b c) cs (step-IsValid b c v)

-- Successes reported one after another.
unfoldable pub succeed_times : ℕ → CircuitBreaker → CircuitBreaker
succeed_times zero b = b
succeed_times (suc n) b = succeed_times n (record_success b)

succeed_once :
    (b : CircuitBreaker) (k n : ℕ)
    → b.state ≡ half_open
    → b.success_count ≡ pos k
    → b.config.success_threshold ≡ pos n
    → suc k < n
    → n ≤ int_max
    → ((record_success b).state ≡ half_open)
      × ((record_success b).success_count ≡ pos (suc k))
      × ((record_success b).config ≡ b.config)
unfolding record_success
succeed_once b k n s c f h m = ground arith

succeed_last :
    (b : CircuitBreaker) (k n : ℕ)
    → b.state ≡ half_open
    → b.success_count ≡ pos k
    → b.config.success_threshold ≡ pos n
    → n ≡ suc k
    → n ≤ int_max
    → ((record_success b).state ≡ closed) × ((record_success b).failure_count ≡ pos 0)
unfolding record_success
succeed_last b k n s c f h m = ground arith

recover_after :
    (j k n : ℕ) (b : CircuitBreaker)
    → b.state ≡ half_open
    → b.success_count ≡ pos k
    → b.config.success_threshold ≡ pos n
    → j + k + 1 ≡ n
    → n ≤ int_max
    → ((succeed_times j b).state ≡ half_open)
      × ((succeed_times (suc j) b).state ≡ closed)
      × ((succeed_times (suc j) b).failure_count ≡ pos 0)
unfolding succeed_times
recover_after zero k n b s c f h m =
    let (a, z) = succeed_last b k n s c f (omega arith) m in (s, a, z)
recover_after (suc j) k n b s c f h m =
    let (s', c', e) = succeed_once b k n s c f (omega arith) m in
    recover_after j (suc k) n (record_success b) s' c' (ap (λ g. g.success_threshold) e ∙ f)
      (omega arith) m

-- An open breaker with success threshold n and a timeout of w seconds, asked w seconds or more
-- after its last failure, admits the request and is half open; it is still half open after n - 1
-- successes, and the n-th closes it with a failure count of 0.
pub recovery :
    (b : CircuitBreaker) (w n now : ℕ)
    → b.state ≡ open_
    → b.success_count ≡ pos 0
    → b.config.recovery_timeout_seconds ≡ pos w
    → b.config.success_threshold ≡ pos (suc n)
    → suc n ≤ int_max
    → b.last_failure_time + w * 1000000000 ≤ now
    → let (granted, c) = allow_request now b in
      (granted ≡ true)
      × (c.state ≡ half_open)
      × ((succeed_times n c).state ≡ half_open)
      × ((succeed_times (suc n) c).state ≡ closed)
      × ((succeed_times (suc n) c).failure_count ≡ pos 0)
unfolding allow_request
recovery b w n now s z r f m h =
    let c = record b { state = half_open } in
    let after = recover_after n 0 (suc n) c refl z f (omega arith) m in
    let granted : allow_request now b ≡ (true, c) = ground arith in
    rw (granted, allow_request) (refl, refl, after.0, after.1, after.2)
