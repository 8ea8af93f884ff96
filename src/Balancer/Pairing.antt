-- ===== src/Balancer/Pairing.antt =====
-- What every operation of the load balancer keeps: workers and breakers in pairs, and a dead worker
-- dead.
use my_taskflow_system.Common.{
  ℕ, ◌≡◌, refl, ◌∙◌, ◌≢◌, ◌↔◌, inl, inr, true, Option, none, some, List, [], ◌∷◌, Text, text_eq,
  text_eq_iff, Bool-cases, Option-cases, arith,
}
use my_taskflow_system.Common.Int.{ℤ}
use my_taskflow_system.Common.Maps.{Map, find, put, find-put, find-erase}
use my_taskflow_system.Breaker.{CircuitBreaker, allow_request}
use my_taskflow_system.Balancer.Model.{
  active, ServiceInfo, WorkerNode, LoadBalancer, Moment, Readings, update_workers, mark_worker_dead,
  update_worker_load, remove_worker, round_robin, least_connection, consistent_hash,
  record_success_of, record_failure_of, LoadBalanceStrategy, refreshed_node, fresh_node,
}
use my_taskflow_system.Balancer.Strategies.{
  Circle, available, admit, admit_worker, select_worker, select_by, round_robin_select,
  least_connection_select, consistent_hash_select, is_worker_available,
}
use my_taskflow_system.Balancer.Workers.{
  IsPaired, listed, merge, merge_service, update_workers-find,
}

-- Two maps with the same keys.
abbrev SameKeys : Map CircuitBreaker → Map CircuitBreaker → Type 0
SameKeys m n = (id : Text) → (find id m ≡ none) ↔ (find id n ≡ none)

replace-SameKeys :
    (id : Text) (b b' : CircuitBreaker) (m : Map CircuitBreaker)
    → find id m ≡ some b
    → SameKeys (put id b' m) m
replace-SameKeys id b b' m h j =
    let p = find-put id j b' m in
    (λ e. ground (arith, text_eq_iff id j), λ e. ground (arith, text_eq_iff id j))

admit-SameKeys : (t : Moment) (id : Text) (bs : Map CircuitBreaker) → SameKeys (admit t id bs).1 bs
unfolding admit
admit-SameKeys t id bs j = elim (Option-cases (find id bs)) [
  | inl e ↦ rw (e, admit) (λ h. h, λ h. h)
  | inr (b, e) ↦ rw (e, admit) (replace-SameKeys id b (allow_request t.steady b).1 bs e j)
]

admit_worker-SameKeys :
    (t : Moment) (id : Text) (w : WorkerNode) (bs : Map CircuitBreaker)
    → SameKeys (admit_worker t id w bs).1 bs
unfolding admit_worker
admit_worker-SameKeys t id w bs j =
    let a = admit-SameKeys t id bs j in (λ h. ground (arith, a.0), λ h. ground (arith, a.1))

pub available-SameKeys :
    (r : Readings) (ws : Map WorkerNode) (bs : Map CircuitBreaker)
    → SameKeys (available r ws bs).1 bs
unfolding available
available-SameKeys r [] bs j = (λ h. h, λ h. h)
available-SameKeys r ((id, w) ∷ ws) bs j =
    let a = admit_worker-SameKeys (r id) id w bs j in
    let b = available-SameKeys r ws (admit_worker (r id) id w bs).1 j in
    (λ h. a.0 (b.0 h), λ h. b.1 (a.1 h))

-- The calls of the load balancer.
pub data Call : Type 0 where
  updates : Readings → List ServiceInfo → Call
  loads : Text → ℤ → Call
  removes : Text → Call
  kills : Text → Call
  selects : Readings → Text → Call
  queries : Moment → Text → Call
  succeeds : Text → Call
  fails : ℕ → Text → Call

module _ (sort : List Circle → List Circle) where
  unfoldable pub step : LoadBalancer → Call → LoadBalancer
  step lb (updates r services) = update_workers r services lb
  step lb (loads id load) = update_worker_load id load lb
  step lb (removes id) = remove_worker id lb
  step lb (kills id) = mark_worker_dead id lb
  step lb (selects r task_id) = (select_worker sort r task_id lb).1
  step lb (queries t id) = (is_worker_available t id lb).1
  step lb (succeeds id) = record_success_of id lb
  step lb (fails now id) = record_failure_of now id lb

  -- A selection changes no worker, and of the breakers at most their states.
  select_by-keeps :
      (s : LoadBalanceStrategy) (r : Readings) (task_id : Text) (lb : LoadBalancer)
      → ((select_by sort s r task_id lb).1.workers ≡ lb.workers)
        × SameKeys (select_by sort s r task_id lb).1.circuit_breakers lb.circuit_breakers
  unfolding select_by round_robin_select least_connection_select consistent_hash_select
  select_by-keeps round_robin r task_id lb =
      (refl, available-SameKeys r lb.workers lb.circuit_breakers)
  select_by-keeps least_connection r task_id lb =
      (refl, available-SameKeys r lb.workers lb.circuit_breakers)
  select_by-keeps consistent_hash r [] lb =
      (refl, available-SameKeys r lb.workers lb.circuit_breakers)
  select_by-keeps consistent_hash r (c ∷ task_id) lb =
      (refl, available-SameKeys r lb.workers lb.circuit_breakers)

  pub select_worker-keeps :
      (r : Readings) (task_id : Text) (lb : LoadBalancer) (ws : Map WorkerNode)
      → lb.workers ≡ ws
      → ((select_worker sort r task_id lb).1.workers ≡ lb.workers)
        × SameKeys (select_worker sort r task_id lb).1.circuit_breakers lb.circuit_breakers
  unfolding select_worker
  select_worker-keeps r task_id lb [] e = rw (e, select_worker) (e, λ id. (λ h. h, λ h. h))
  select_worker-keeps r task_id lb (x ∷ ws) e =
      let k = select_by-keeps lb.strategy r task_id lb in rw (e, select_worker) (k.0 ∙ e, k.1)

put-IsPaired :
    (id : Text) (w w' : WorkerNode) (lb : LoadBalancer)
    → find id lb.workers ≡ some w
    → IsPaired lb
    → IsPaired (record lb { workers = put id w' lb.workers })
put-IsPaired id w w' lb e p = record {
  at = λ j.
      let k = find-put id j w' lb.workers in
      let q = p.at j in
      (λ h. ground (arith, text_eq_iff id j, q.0), λ h. ground (arith, text_eq_iff id j, q.1));
}

breakers-IsPaired :
    (m : Map CircuitBreaker) (lb lb' : LoadBalancer)
    → lb'.workers ≡ lb.workers
    → lb'.circuit_breakers ≡ m
    → SameKeys m lb.circuit_breakers
    → IsPaired lb
    → IsPaired lb'
breakers-IsPaired m lb lb' w b k p = record {
  at = λ j.
      let q = p.at j in
      let s = k j in (λ h. ground (arith, q.0, s.1), λ h. ground (arith, q.1, s.0));
}

pub merge-some :
    (r : Readings) (id : Text) (ss : List ServiceInfo) (w : WorkerNode)
    → (w' : WorkerNode) × (merge r id ss (some w) ≡ some w') × (w'.status ≡ w.status)
merge-some r id [] w = (w, refl, refl)
merge-some r id (s ∷ ss) w = elim (Bool-cases (text_eq s.id id)) [
  | inl here ↦ let m = merge-some r id ss (refreshed_node (r s.id) s w) in (m.0, rw here m.1, m.2)
  | inr there ↦ let m = merge-some r id ss w in (m.0, rw there m.1, m.2)
]

merge-merge_service :
    (r : Readings) (id : Text) (ss : List ServiceInfo) (t : Moment) (s : ServiceInfo)
    (o : Option WorkerNode)
    → merge r id ss (merge_service t s o) ≢ none
merge-merge_service r id ss t s none = let m = merge-some r id ss (fresh_node t s) in λ e. cc (m.1)
merge-merge_service r id ss t s (some w) =
    let m = merge-some r id ss (refreshed_node t s w) in λ e. cc (m.1)

merge-listed :
    (r : Readings) (id : Text) (ss : List ServiceInfo) (o : Option WorkerNode)
    → listed id ss ≡ true
    → merge r id ss o ≢ none
merge-listed r id [] o h = cc
merge-listed r id (s ∷ ss) o h = elim (Bool-cases (text_eq s.id id)) [
  | inl here ↦ rw here (merge-merge_service r id ss (r s.id) s o)
  | inr there ↦ rw there (merge-listed r id ss o (ground arith))
]

update_workers-IsPaired :
    (r : Readings) (ss : List ServiceInfo) (lb : LoadBalancer)
    → IsPaired lb
    → IsPaired (update_workers r ss lb)
update_workers-IsPaired r ss lb p = record {
  at = λ id.
      let u = update_workers-find r ss id lb p in
      let q = p.at id in
      let l = merge-listed r id ss (find id lb.workers) in
      (λ h. ground (arith, l), λ h. ground (arith, l, q.1));
}

is_worker_available-IsPaired :
    (t : Moment) (id : Text) (lb : LoadBalancer) (o : Option WorkerNode)
    → find id lb.workers ≡ o
    → IsPaired lb
    → IsPaired (is_worker_available t id lb).1
unfolding is_worker_available
is_worker_available-IsPaired t id lb none e p = rw (e, is_worker_available) p
is_worker_available-IsPaired t id lb (some w) e p = elim (Bool-cases (text_eq w.status active)) [
  | inl up ↦
      rw (e, is_worker_available)
        (rw up (breakers-IsPaired _ lb _ refl refl (admit-SameKeys t id lb.circuit_breakers) p))
  | inr down ↦ rw (e, is_worker_available) (rw down p)
]

module _ (sort : List Circle → List Circle) where
  -- Every call of the load balancer keeps its two maps in step: a worker has a circuit breaker, and
  -- no breaker is left without a worker.
  pub step-IsPaired : (lb : LoadBalancer) (c : Call) → IsPaired lb → IsPaired (step sort lb c)
  unfolding step update_worker_load remove_worker mark_worker_dead is_worker_available
      record_success_of record_failure_of
  step-IsPaired lb (updates r ss) p = update_workers-IsPaired r ss lb p
  step-IsPaired lb (loads id load) p = elim (Option-cases (find id lb.workers)) [
    | inl e ↦ rw (e, update_worker_load) p
    | inr (w, e) ↦ rw (e, update_worker_load) (put-IsPaired id w _ lb e p)
  ]
  step-IsPaired lb (removes id) p = record {
    at = λ j.
        let k = find-erase id j lb.workers in
        let l = find-erase id j lb.circuit_breakers in
        let q = p.at j in (λ h. ground (arith, q.0), λ h. ground (arith, q.1));
  }
  step-IsPaired lb (kills id) p = elim (Option-cases (find id lb.workers)) [
    | inl e ↦ rw (e, mark_worker_dead) p
    | inr (w, e) ↦ rw (e, mark_worker_dead) (put-IsPaired id w _ lb e p)
  ]
  step-IsPaired lb (selects r task_id) p =
      let k = select_worker-keeps sort r task_id lb lb.workers refl in
      breakers-IsPaired _ lb _ k.0 refl k.1 p
  step-IsPaired lb (queries t id) p =
      is_worker_available-IsPaired t id lb (find id lb.workers) refl p
  step-IsPaired lb (succeeds id) p = elim (Option-cases (find id lb.circuit_breakers)) [
    | inl e ↦ rw (e, record_success_of) p
    | inr (b, e) ↦
        rw (e, record_success_of)
          (breakers-IsPaired _ lb _ refl refl (replace-SameKeys id b _ lb.circuit_breakers e) p)
  ]
  step-IsPaired lb (fails now id) p = elim (Option-cases (find id lb.circuit_breakers)) [
    | inl e ↦ rw (e, record_failure_of) p
    | inr (b, e) ↦
        rw (e, record_failure_of)
          (breakers-IsPaired _ lb _ refl refl (replace-SameKeys id b _ lb.circuit_breakers e) p)
  ]
