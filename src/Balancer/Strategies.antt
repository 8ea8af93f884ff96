-- ===== src/Balancer/Strategies.antt =====
-- scheduler/load_balancer.cpp, selectWorker and the three selections behind it, and
-- isWorkerAvailable.
use my_taskflow_system.Common.{
  ℕ, ◌+◌, ◌-◌, ◌*◌, ◌%◌, ◌^◌, Bool, true, false, Option, none, some, List, [], ◌∷◌, map, Text,
  is_empty, text_eq, leb, ltb, get_or, length, if◌then◌else◌,
}
use my_taskflow_system.Common.Int.{ltb_ℤ}
use my_taskflow_system.Common.Maps.{Map, find, put}
use my_taskflow_system.Breaker.{CircuitBreaker, allow_request}
use my_taskflow_system.Balancer.Model.{
  LoadBalanceStrategy, LoadBalancer, Moment, Readings, WorkerNode, active, consistent_hash,
  least_connection, round_robin,
}

-- cb_it == end() || cb_it->second->allowRequest(), with what the call does to the breaker.
unfoldable pub admit : Moment → Text → Map CircuitBreaker → Bool × Map CircuitBreaker
admit t id bs = elim (find id bs) [
  | none ↦ (true, bs)
  | some b ↦ let (granted, b') = allow_request t.steady b in (granted, put id b' bs)
]

-- One worker of the loops of the three selections.
unfoldable pub admit_worker :
    Moment → Text → WorkerNode → Map CircuitBreaker → Bool × Map CircuitBreaker
unfolding admit
admit_worker t id w bs = if text_eq w.status active then admit t id bs else (false, bs)

-- The workers that the loops go on with, in the order of the map.
unfoldable pub available :
    Readings → Map WorkerNode → Map CircuitBreaker → Map WorkerNode × Map CircuitBreaker
unfolding admit_worker
available r [] bs = ([], bs)
available r ((id, w) ∷ ws) bs =
    let (granted, bs') = admit_worker (r id) id w bs in
    let (rest, bs'') = available r ws bs' in (if granted then (id, w) ∷ rest else rest, bs'')

abbrev pub ids : Map WorkerNode → List Text
ids = map (λ e. e.0)

-- round_robin_index_++ is atomic and wraps at 64 bits.
unfoldable pub round_robin_pick : List Text → ℕ → Text × ℕ
round_robin_pick [] index = ([], index)
round_robin_pick (x ∷ xs) index =
    (get_or (x ∷ xs) (index % length (x ∷ xs)) [], (index + 1) % 2 ^ 64)

unfoldable pub round_robin_select : Readings → LoadBalancer → Text × LoadBalancer
unfolding available round_robin_pick
round_robin_select r lb =
    let (ws, bs) = available r lb.workers lb.circuit_breakers in
    let (id, index) = round_robin_pick (ids ws) lb.round_robin_index in
    (id, record lb { circuit_breakers = bs; round_robin_index = index })

-- best and best_id of the loop of leastConnectionSelect.
unfoldable pub least_loaded : Text × WorkerNode → Map WorkerNode → Text
least_loaded (id, best) [] = id
least_loaded (id, best) ((i, w) ∷ ws) =
    least_loaded (if ltb_ℤ w.current_load best.current_load then (i, w) else (id, best)) ws

unfoldable pub least_connection_pick : Map WorkerNode → Text
unfolding least_loaded
least_connection_pick [] = []
least_connection_pick (e ∷ ws) = least_loaded e ws

unfoldable pub least_connection_select : Readings → LoadBalancer → Text × LoadBalancer
unfolding available least_connection_pick
least_connection_select r lb =
    let (ws, bs) = available r lb.workers lb.circuit_breakers in
    (least_connection_pick ws, record lb { circuit_breakers = bs })

-- static_cast<uint64_t>(c) for a signed char c.
abbrev pub extend_char : ℕ → ℕ
extend_char c = if ltb c 128 then c else 2 ^ 64 - 256 + c

unfoldable pub hash_from : ℕ → Text → ℕ
hash_from h [] = h
hash_from h (c ∷ s) = hash_from ((h * 2 ^ 5 + h + extend_char c) % 2 ^ 64) s

unfoldable pub hash : Text → ℕ
unfolding hash_from
hash key = hash_from 5381 key

abbrev pub Circle : Type 0
Circle = ℕ × Text

-- The loop over the sorted circles.
unfoldable pub first_from : ℕ → List Circle → Option Text
first_from h [] = none
first_from h ((k, id) ∷ cs) = let rest = first_from h cs in if leb h k then some id else rest

unfoldable pub ring_pick : ℕ → List Circle → Text
unfolding first_from
ring_pick h [] = []
ring_pick h ((k, id) ∷ cs) = elim (first_from h ((k, id) ∷ cs)) [ some found ↦ found | none ↦ id ]

abbrev pub circles : Map WorkerNode → List Circle
circles = map (λ e. (hash e.0, e.0))

-- std::sort leaves open how it orders circles with equal hashes, so it is a parameter.
module _ (sort : List Circle → List Circle) where
  unfoldable pub consistent_hash_select : Readings → Text → LoadBalancer → Text × LoadBalancer
  unfolding available ring_pick least_connection_select
  consistent_hash_select r task_id lb =
      let (ws, bs) = available r lb.workers lb.circuit_breakers in
      let picked : Text × LoadBalancer =
        (ring_pick (hash task_id) (sort (circles ws)), record lb { circuit_breakers = bs }) in
      if is_empty task_id then least_connection_select r lb else picked

  unfoldable pub select_by :
      LoadBalanceStrategy → Readings → Text → LoadBalancer → Text × LoadBalancer
  unfolding round_robin_select least_connection_select consistent_hash_select
  select_by round_robin r task_id lb = round_robin_select r lb
  select_by least_connection r task_id lb = least_connection_select r lb
  select_by consistent_hash r task_id lb = consistent_hash_select r task_id lb

  unfoldable pub select_worker : Readings → Text → LoadBalancer → Text × LoadBalancer
  unfolding select_by
  select_worker r task_id lb = elim lb.workers [
    | [] ↦ ([], lb)
    | _ ∷ _ ↦ select_by lb.strategy r task_id lb
  ]

unfoldable pub is_worker_available : Moment → Text → LoadBalancer → Bool × LoadBalancer
unfolding admit
is_worker_available t id lb = elim (find id lb.workers) [
  | none ↦ (false, lb)
  | some w ↦
      if text_eq w.status active
      then (let (granted, bs) = admit t id lb.circuit_breakers in
          (granted, record lb { circuit_breakers = bs }))
      else (false, lb)
]
