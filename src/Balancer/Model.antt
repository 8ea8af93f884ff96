-- ===== src/Balancer/Model.antt =====
-- scheduler/load_balancer.cpp and load_balancer.h: the workers and their circuit breakers.
use my_taskflow_system.Common.{
  ℕ, Bool, true, Option, none, some, List, [], ◌∷◌, map, Text, codes, text_eq, length,
  if◌then◌else◌,
}
use my_taskflow_system.Common.Int.{ℤ, pos}
use my_taskflow_system.Common.Maps.{Map, find, put, erase}
use my_taskflow_system.Breaker.{
  CircuitBreaker, Config, CircuitState, allow_request, record_success, record_failure,
  default_config,
}
use my_taskflow_system.Breaker

-- ServiceInfo of common/etcd_client.h.
pub record ServiceInfo : Type 0 where
  pub name : Text
  pub id : Text
  pub address : Text
  pub port : ℤ
  pub metadata : Map Text
  pub lease_id : ℤ
  pub last_update : ℤ

pub record WorkerNode : Type 0 where
  pub id : Text
  pub address : Text
  pub port : ℤ
  pub current_load : ℤ
  pub status : Text
  pub last_heartbeat : ℕ
  pub last_check : ℕ

pub data LoadBalanceStrategy : Type 0 where
  round_robin least_connection consistent_hash : LoadBalanceStrategy

pub record LoadBalancer : Type 0 where
  pub strategy : LoadBalanceStrategy
  pub workers : Map WorkerNode
  pub round_robin_index : ℕ
  pub circuit_breakers : Map CircuitBreaker

-- The system clock in milliseconds and the steady clock in nanoseconds.
pub record Moment : Type 0 where
  pub system : ℕ
  pub steady : ℕ

abbrev pub Readings : Type 0
Readings = Text → Moment

abbrev pub active : Text
active = codes "active"

abbrev pub dead : Text
dead = codes "dead"

unfoldable pub parse_strategy : Text → LoadBalanceStrategy
parse_strategy s =
    if text_eq s (codes "round_robin")
    then round_robin
    else if text_eq s (codes "least_connection")
    then least_connection
    else if text_eq s (codes "consistent_hash")
    then consistent_hash
    else least_connection

unfoldable pub set_strategy : Text → LoadBalancer → LoadBalancer
unfolding parse_strategy
set_strategy s lb = record lb { strategy = parse_strategy s }

-- The constructor.
unfoldable pub new : Text → LoadBalancer
unfolding set_strategy
new s = set_strategy s (record {
  strategy = least_connection;
  workers = [];
  round_robin_index = 0;
  circuit_breakers = [];
})

abbrev pub worker_breaker_config : Config
worker_breaker_config = record {
  failure_threshold = pos 3;
  recovery_timeout_seconds = pos 30;
  success_threshold = pos 1;
}

abbrev pub fresh_node : Moment → ServiceInfo → WorkerNode
fresh_node t s = record {
  id = s.id;
  address = s.address;
  port = s.port;
  current_load = pos 0;
  status = active;
  last_heartbeat = t.system;
  last_check = t.steady;
}

abbrev pub refreshed_node : Moment → ServiceInfo → WorkerNode → WorkerNode
refreshed_node t s w = record w { address = s.address; port = s.port; last_heartbeat = t.system }

-- The body of the first loop of updateWorkers.
unfoldable pub add_service : Moment → ServiceInfo → LoadBalancer → LoadBalancer
add_service t s lb = elim (find s.id lb.workers) [
  | none ↦ record lb {
    workers = put s.id (fresh_node t s) lb.workers;
    circuit_breakers = put s.id (Breaker.new s.id worker_breaker_config) lb.circuit_breakers;
  }
  | some w ↦ record lb { workers = put s.id (refreshed_node t s w) lb.workers }
]

unfoldable pub add_services : Readings → List ServiceInfo → LoadBalancer → LoadBalancer
unfolding add_service
add_services r [] lb = lb
add_services r (s ∷ ss) lb = add_services r ss (add_service (r s.id) s lb)

-- current_workers
unfoldable pub current_workers : List ServiceInfo → Map Bool → Map Bool
current_workers [] m = m
current_workers (s ∷ ss) m = current_workers ss (put s.id true m)

-- One worker of the second loop.
unfoldable pub remove_unless_current : Map Bool → Text → LoadBalancer → LoadBalancer
remove_unless_current current id lb = elim (find id current) [
  | none ↦ record lb {
    circuit_breakers = erase id lb.circuit_breakers;
    workers = erase id lb.workers;
  }
  | some _ ↦ lb
]

-- The second loop: `entries` are the workers still to be visited.
unfoldable pub remove_missing : Map Bool → Map WorkerNode → LoadBalancer → LoadBalancer
unfolding remove_unless_current
remove_missing current [] lb = lb
remove_missing current ((id, w) ∷ entries) lb =
    remove_missing current entries (remove_unless_current current id lb)

unfoldable pub update_workers : Readings → List ServiceInfo → LoadBalancer → LoadBalancer
unfolding add_services current_workers remove_missing
update_workers r services lb =
    let added = add_services r services lb in
    remove_missing (current_workers services []) added.workers added

unfoldable pub update_worker_load : Text → ℤ → LoadBalancer → LoadBalancer
update_worker_load id load lb = elim (find id lb.workers) [
  | none ↦ lb
  | some w ↦ record lb { workers = put id (record w { current_load = load }) lb.workers }
]

unfoldable pub remove_worker : Text → LoadBalancer → LoadBalancer
remove_worker id lb = record lb {
  workers = erase id lb.workers;
  circuit_breakers = erase id lb.circuit_breakers;
}

unfoldable pub mark_worker_dead : Text → LoadBalancer → LoadBalancer
mark_worker_dead id lb = elim (find id lb.workers) [
  | none ↦ lb
  | some w ↦ record lb { workers = put id (record w { status = dead }) lb.workers }
]

unfoldable pub get_workers : LoadBalancer → List WorkerNode
get_workers lb = map (λ e. e.1) lb.workers

unfoldable pub get_worker : Text → LoadBalancer → Option WorkerNode
get_worker id lb = find id lb.workers

unfoldable pub get_worker_count : LoadBalancer → ℕ
get_worker_count lb = length lb.workers

unfoldable pub record_success_of : Text → LoadBalancer → LoadBalancer
record_success_of id lb = elim (find id lb.circuit_breakers) [
  | none ↦ lb
  | some b ↦ record lb { circuit_breakers = put id (record_success b) lb.circuit_breakers }
]

unfoldable pub record_failure_of : ℕ → Text → LoadBalancer → LoadBalancer
record_failure_of now id lb = elim (find id lb.circuit_breakers) [
  | none ↦ lb
  | some b ↦ record lb { circuit_breakers = put id (record_failure now b) lb.circuit_breakers }
]
