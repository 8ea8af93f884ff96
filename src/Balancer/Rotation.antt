-- ===== src/Balancer/Rotation.antt =====
-- selectWorker under every strategy, the rotation of the round robin, and the workers that can no
-- longer be chosen.
use my_taskflow_system.Common.{
  ℕ, zero, suc, ◌+◌, ◌%◌, ◌^◌, ◌<◌, ◌≡◌, refl, ◌∙◌, ap, subst, ◌⊎◌, inl, inr, false, none, some,
  List, [], ◌∷◌, Text, Memᴰ, get_or, length, text_eq, text_eq_iff, Bool-cases, Option-cases, arith,
}
use my_taskflow_system.Common.Maps.{Map, find, put, find-put, find-erase}
use my_taskflow_system.Balancer.Model.{
  WorkerNode, LoadBalancer, LoadBalanceStrategy, Readings, Moment, dead, round_robin,
  least_connection, consistent_hash, update_worker_load, remove_worker, mark_worker_dead,
  record_success_of, record_failure_of,
}
use my_taskflow_system.Balancer.Strategies.{
  Circle, available, ids, circles, admit_worker, round_robin_pick, round_robin_select,
  least_connection_select, consistent_hash_select, select_by, select_worker, is_worker_available,
}
use my_taskflow_system.Balancer.Selection.{
  eligible, granted, available-eligible, granted-admit_worker, eligible_congr,
}
use my_taskflow_system.Balancer.Choice.{
  candidates, Sorting, least_connection_select-IsLeast, consistent_hash_select-IsNext,
  round_robin_pick-mem,
}
use my_taskflow_system.Balancer.Workers.{IsPaired, listed, update_workers-find}
use my_taskflow_system.Balancer.Pairing.{
  Call, updates, loads, removes, kills, selects, queries, succeeds, fails, step,
  select_worker-keeps, merge-some,
}

mem-ids : {id : Text} {w : WorkerNode} (ws : Map WorkerNode) → Memᴰ (id, w) ws → Memᴰ id (ids ws)
mem-ids [] m = elim m [ ]
mem-ids (x ∷ ws) (Memᴰ.head e) = Memᴰ.head (ap (λ p. p.0) e)
mem-ids (x ∷ ws) (Memᴰ.tail m) = Memᴰ.tail (mem-ids ws m)

mem-circles :
    {k : ℕ} {id : Text} (ws : Map WorkerNode) → Memᴰ (k, id) (circles ws) → Memᴰ id (ids ws)
mem-circles [] m = elim m [ ]
mem-circles (x ∷ ws) (Memᴰ.head e) = Memᴰ.head (ap (λ p. p.1) e)
mem-circles (x ∷ ws) (Memᴰ.tail m) = Memᴰ.tail (mem-circles ws m)

-- The answer of a selection: an eligible worker, or the empty string if there is none.
abbrev pub Answers : Text → Map WorkerNode → Type 0
Answers id ws = ((ws ≡ []) × (id ≡ [])) ⊎ Memᴰ id (ids ws)

round_robin-Answers :
    (ws : Map WorkerNode) (index : ℕ) → Answers (round_robin_pick (ids ws) index).0 ws
unfolding round_robin_pick
round_robin-Answers [] index = inl (refl, refl)
round_robin-Answers (e ∷ ws) index = inr (round_robin_pick-mem e.0 (ids ws) index)

least-Answers :
    (r : Readings) (lb : LoadBalancer) → Answers (least_connection_select r lb).0 (candidates r lb)
least-Answers r lb = elim (least_connection_select-IsLeast r lb) [
  | inl none_left ↦ inl none_left
  | inr l ↦ inr (mem-ids (candidates r lb) l.member)
]

module _ (sort : List Circle → List Circle) (laws : Sorting sort) where
  select_by-Answers :
      (s : LoadBalanceStrategy) (r : Readings) (task_id : Text) (lb : LoadBalancer)
      → Answers (select_by sort s r task_id lb).0 (candidates r lb)
  unfolding select_by round_robin_select
  select_by-Answers round_robin r task_id lb =
      rw (available-eligible r lb.workers lb.circuit_breakers)
        (round_robin-Answers (candidates r lb) lb.round_robin_index)
  select_by-Answers least_connection r task_id lb = least-Answers r lb
  select_by-Answers consistent_hash r [] lb = unfold consistent_hash_select in least-Answers r lb
  select_by-Answers consistent_hash r (c ∷ task_id) lb =
      elim (consistent_hash_select-IsNext sort laws r c task_id lb) [
        | inl none_left ↦ inl none_left
        | inr n ↦ inr (mem-circles (candidates r lb) n.member)
      ]

  answer :
      (r : Readings) (task_id : Text) (lb : LoadBalancer) (ws : Map WorkerNode)
      → lb.workers ≡ ws
      → Answers (select_worker sort r task_id lb).0 (candidates r lb)
  unfolding select_worker
  answer r task_id lb [] e = rw (e, select_worker) (inl (refl, refl))
  answer r task_id lb (x ∷ ws) e =
      rw (e, select_worker)
        (subst
          (λ l.
            Answers (select_by sort lb.strategy r task_id lb).0 (eligible r lb.circuit_breakers l))
          e (select_by-Answers lb.strategy r task_id lb))

  -- Under every strategy selectWorker returns the id of an active worker whose circuit breaker
  -- lets a request through, if there is such a worker, and the empty string if there is none.
  pub select_worker-Answers :
      (r : Readings) (task_id : Text) (lb : LoadBalancer)
      → Answers (select_worker sort r task_id lb).0 (candidates r lb)
  select_worker-Answers r task_id lb = answer r task_id lb lb.workers refl

-- Selections one after the other, at the same readings of the clocks.
unfoldable pub rounds : ℕ → Readings → LoadBalancer → LoadBalancer
rounds zero r lb = lb
rounds (suc n) r lb = rounds n r (round_robin_select r lb).1

available-granted :
    (r : Readings) (ws : Map WorkerNode) (bs : Map _) (j : Text)
    → granted r (available r ws bs).1 j ≡ granted r bs j
unfolding available
available-granted r [] bs j = refl
available-granted r ((id, w) ∷ ws) bs j =
    available-granted r ws (admit_worker (r id) id w bs).1 j ∙ granted-admit_worker r id j w bs

round-candidates :
    (r : Readings) (lb : LoadBalancer) → candidates r (round_robin_select r lb).1 ≡ candidates r lb
unfolding round_robin_select
round-candidates r lb =
    eligible_congr r lb.circuit_breakers (available r lb.workers lb.circuit_breakers).1 lb.workers
      (available-granted r lb.workers lb.circuit_breakers)

round_index :
    (r : Readings) (lb : LoadBalancer) (x : Text × WorkerNode) (xs : Map WorkerNode)
    → candidates r lb ≡ x ∷ xs
    → ((round_robin_select r lb).1.round_robin_index ≡ (lb.round_robin_index + 1) % 2 ^ 64)
      × ((round_robin_select r lb).0
          ≡ get_or (ids (x ∷ xs)) (lb.round_robin_index % length (ids (x ∷ xs))) [])
unfolding round_robin_select round_robin_pick
round_index r lb x xs e =
    let a = available-eligible r lb.workers lb.circuit_breakers ∙ e in rw a (refl, refl)

-- While the index does not wrap at 64 bits, the k-th further selection at the same readings returns
-- the eligible worker at position (index + k) modulo their number: the workers take turns.
pub rounds_take_turns :
    (k : ℕ) (r : Readings) (lb : LoadBalancer) (x : Text × WorkerNode) (xs : Map WorkerNode)
    → candidates r lb ≡ x ∷ xs
    → lb.round_robin_index + k < 2 ^ 64
    → (round_robin_select r (rounds k r lb)).0
      ≡ get_or (ids (x ∷ xs)) ((lb.round_robin_index + k) % length (ids (x ∷ xs))) []
unfolding rounds
rounds_take_turns zero r lb x xs e h =
    let i : lb.round_robin_index + 0 ≡ lb.round_robin_index = omega arith in
    rw i (round_index r lb x xs e).1
rounds_take_turns (suc k) r lb x xs e h =
    let next = round_index r lb x xs e in
    let i : (round_robin_select r lb).1.round_robin_index + k ≡ lb.round_robin_index + suc k =
      omega (arith, next.0) in
    rw (← i) (
      rounds_take_turns k r (round_robin_select r lb).1 x xs (round-candidates r lb ∙ e)
        (omega (arith, next.0)))

-- The worker under the id is marked dead, or is not there.
abbrev pub DeadOrGone : Text → LoadBalancer → Type 0
DeadOrGone id lb =
    (find id lb.workers ≡ none)
    ⊎ ((w : WorkerNode) × (find id lb.workers ≡ some w) × (w.status ≡ dead))

dead-put :
    (id j : Text) (w v : WorkerNode) (lb : LoadBalancer)
    → find id lb.workers ≡ some w
    → w.status ≡ dead
    → (v.status ≡ dead) ⊎ (text_eq j id ≡ false)
    → DeadOrGone id (record lb { workers = put j v lb.workers })
dead-put id j w v lb e d c = elim (Bool-cases (text_eq j id)) [
  | inl same ↦ inr (v, ground (arith, find-put j id v lb.workers), ground arith)
  | inr other ↦ inr (w, ground (arith, find-put j id v lb.workers), d)
]

same_status :
    (j id : Text) (v w : WorkerNode) (lb : LoadBalancer)
    → find j lb.workers ≡ some v
    → find id lb.workers ≡ some w
    → w.status ≡ dead
    → (v.status ≡ dead) ⊎ (text_eq j id ≡ false)
same_status j id v w lb f e d = elim (Bool-cases (text_eq j id)) [
  | inl same ↦ inl (ground (arith, text_eq_iff j id))
  | inr other ↦ inr other
]

queries-workers :
    (t : Moment) (j : Text) (lb : LoadBalancer)
    → (is_worker_available t j lb).1.workers ≡ lb.workers
unfolding is_worker_available
queries-workers t j lb = ground arith

success-workers : (j : Text) (lb : LoadBalancer) → (record_success_of j lb).workers ≡ lb.workers
unfolding record_success_of
success-workers j lb = ground arith

failure-workers :
    (now : ℕ) (j : Text) (lb : LoadBalancer) → (record_failure_of now j lb).workers ≡ lb.workers
unfolding record_failure_of
failure-workers now j lb = ground arith

module _ (sort : List Circle → List Circle) where
  -- A worker that was marked dead is never active again while it stays in the map: every call, an
  -- updateWorkers that lists it among the services included, leaves it dead or removes it.
  pub step-DeadOrGone :
      (lb : LoadBalancer) (c : Call) (id : Text) (w : WorkerNode)
      → IsPaired lb
      → find id lb.workers ≡ some w
      → w.status ≡ dead
      → DeadOrGone id (step sort lb c)
  unfolding step update_worker_load mark_worker_dead is_worker_available record_success_of
      record_failure_of remove_worker
  step-DeadOrGone lb (updates r ss) id w p e d =
      let u = (update_workers-find r ss id lb p).0 in
      let m = merge-some r id ss w in
      elim (Bool-cases (listed id ss)) [
        | inl there ↦ inr (m.0, ground (arith, m.1), ground (arith, m.2))
        | inr gone ↦ inl (ground arith)
      ]
  step-DeadOrGone lb (loads j load) id w p e d = elim (Option-cases (find j lb.workers)) [
    | inl f ↦ rw (f, update_worker_load) (inr (w, e, d))
    | inr (v, f) ↦
        rw (f, update_worker_load) (dead-put id j w _ lb e d (same_status j id v w lb f e d))
  ]
  step-DeadOrGone lb (removes j) id w p e d = elim (Bool-cases (text_eq j id)) [
    | inl same ↦ inl (ground (arith, find-erase j id lb.workers))
    | inr other ↦ inr (w, ground (arith, find-erase j id lb.workers), d)
  ]
  step-DeadOrGone lb (kills j) id w p e d = elim (Option-cases (find j lb.workers)) [
    | inl f ↦ rw (f, mark_worker_dead) (inr (w, e, d))
    | inr (v, f) ↦ rw (f, mark_worker_dead) (dead-put id j w _ lb e d (inl refl))
  ]
  step-DeadOrGone lb (selects r task_id) id w p e d =
      inr (w, ap (find id) (select_worker-keeps sort r task_id lb lb.workers refl).0 ∙ e, d)
  step-DeadOrGone lb (queries t j) id w p e d =
      inr (w, ap (find id) (queries-workers t j lb) ∙ e, d)
  step-DeadOrGone lb (succeeds j) id w p e d = inr (w, ap (find id) (success-workers j lb) ∙ e, d)
  step-DeadOrGone lb (fails now j) id w p e d =
      inr (w, ap (find id) (failure-workers now j lb) ∙ e, d)
