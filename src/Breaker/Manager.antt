-- ===== src/Breaker/Manager.antt =====
-- common/circuit_breaker.cpp: CircuitBreakerManager, the breakers by name. A pointer to a breaker is
-- the breaker that the map holds under the name.
use my_taskflow_system.Common.{
  ℕ, ◌≡◌, ◌≢◌, Text, Option, none, some, [], arith, length, text_eq_iff,
}
use my_taskflow_system.Common.Maps.{Map, find, put, erase, find-put, find-erase}
use my_taskflow_system.Breaker.{CircuitBreaker, Config, new}

pub record CircuitBreakerManager : Type 0 where
  pub breakers : Map CircuitBreaker

pub get_breaker : Text → CircuitBreakerManager → Option CircuitBreaker
get_breaker name m = find name m.breakers

pub get_or_create_breaker :
    Text → Config → CircuitBreakerManager → CircuitBreaker × CircuitBreakerManager
get_or_create_breaker name config m = elim (find name m.breakers) [
  | some b ↦ (b, m)
  | none ↦ (new name config, record m { breakers = put name (new name config) m.breakers })
]

pub remove_breaker : Text → CircuitBreakerManager → CircuitBreakerManager
remove_breaker name m = record m { breakers = erase name m.breakers }

pub clear : CircuitBreakerManager → CircuitBreakerManager
clear m = record m { breakers = [] }

pub get_breaker_count : CircuitBreakerManager → ℕ
get_breaker_count m = length m.breakers

-- What get_breaker finds under every name after a removal and a get_or_create: the created breaker,
-- or the one that was there, under the name asked for; nothing under the removed name; and what was
-- there before under the others.
pub get_breaker-get_or_create :
    (name gone other : Text) (config : Config) (m : CircuitBreakerManager)
    → let (b, after) = get_or_create_breaker name config (remove_breaker gone m) in
      (get_breaker name after ≡ some b)
      × (name ≡ gone → b ≡ new name config)
      × (name ≢ gone → (c : CircuitBreaker) → get_breaker name m ≡ some c → b ≡ c)
      × (other ≢ name → other ≡ gone → get_breaker other after ≡ none)
      × (other ≢ name → other ≢ gone → get_breaker other after ≡ get_breaker other m)
unfolding get_breaker get_or_create_breaker remove_breaker
get_breaker-get_or_create name gone other config m =
    let e = find-erase gone name m.breakers in
    let o = find-erase gone other m.breakers in
    let p = λ (i : Text). find-put name i (new name config) (erase gone m.breakers) in
    (
      ground (arith, e, p name, text_eq_iff gone name, text_eq_iff name name),
      λ h. ground (arith, e, text_eq_iff gone name),
      λ h c g. ground (arith, e, text_eq_iff gone name),
      λ h g. ground (arith, e, o, p other, text_eq_iff gone other, text_eq_iff name other),
      λ h g. ground (arith, e, o, p other, text_eq_iff gone other, text_eq_iff name other),
    )
