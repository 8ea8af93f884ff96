-- ===== src/Balancer/Workers.antt =====
-- updateWorkers, entry by entry: what the two maps hold afterwards under each id.
use my_taskflow_system.Common.{
  ◌↔◌, ◌≡◌, refl, sym, ap, ◌∙◌, inl, inr, Bool, true, false, ◌||◌, Option, none, some, List, [],
  ◌∷◌, Text, text_eq, text_eq_iff, Bool-cases, Option-cases, arith, if◌then◌else◌,
}
use my_taskflow_system.Common.Maps.{Map, find, put, find-put, find-erase}
use my_taskflow_system.Breaker.{CircuitBreaker}
use my_taskflow_system.Breaker
use my_taskflow_system.Balancer.Model.{
  remove_unless_current, ServiceInfo, WorkerNode, LoadBalancer, Moment, Readings, fresh_node,
  refreshed_node, worker_breaker_config, add_service, add_services, current_workers, remove_missing,
  update_workers,
}

-- Some service of the list has the id.
abbrev pub listed : Text → List ServiceInfo → Bool
listed id [] = false
listed id (s ∷ ss) = text_eq s.id id || listed id ss

-- One service: a new node, or the old one with its address and heartbeat brought up to date.
abbrev pub merge_service : Moment → ServiceInfo → Option WorkerNode → Option WorkerNode
merge_service t s none = some (fresh_node t s)
merge_service t s (some w) = some (refreshed_node t s w)

-- The services of a list that have the id, one after the other.
abbrev pub merge : Readings → Text → List ServiceInfo → Option WorkerNode → Option WorkerNode
merge r id [] o = o
merge r id (s ∷ ss) o = merge r id ss (if text_eq s.id id then merge_service (r s.id) s o else o)

-- The breaker of a listed worker: a new one for a new worker.
abbrev pub breaker_for : Text → Option WorkerNode → Option CircuitBreaker → Option CircuitBreaker
breaker_for id none b = some (Breaker.new id worker_breaker_config)
breaker_for id (some w) b = b

add_service-workers :
    (t : Moment) (s : ServiceInfo) (id : Text) (lb : LoadBalancer)
    → find id (add_service t s lb).workers
      ≡ (if text_eq s.id id then merge_service t s (find id lb.workers) else find id lb.workers)
unfolding add_service
add_service-workers t s id lb = elim (Option-cases (find s.id lb.workers)) [
  | inl e ↦ ground (arith, text_eq_iff s.id id, find-put s.id id (fresh_node t s) lb.workers)
  | inr (w, e) ↦
      ground (arith, text_eq_iff s.id id, find-put s.id id (refreshed_node t s w) lb.workers)
]

add_service-breakers :
    (t : Moment) (s : ServiceInfo) (id : Text) (lb : LoadBalancer)
    → find id (add_service t s lb).circuit_breakers ≡ (
        if text_eq s.id id
        then breaker_for id (find id lb.workers) (find id lb.circuit_breakers)
        else find id lb.circuit_breakers)
unfolding add_service
add_service-breakers t s id lb = elim (Option-cases (find s.id lb.workers)) [
  | inl e ↦ ground (
    arith,
    text_eq_iff s.id id,
    find-put s.id id (Breaker.new s.id worker_breaker_config) lb.circuit_breakers,
  )
  | inr (w, e) ↦ ground (arith, text_eq_iff s.id id)
]

add_services-workers :
    (r : Readings) (ss : List ServiceInfo) (id : Text) (lb : LoadBalancer)
    → find id (add_services r ss lb).workers ≡ merge r id ss (find id lb.workers)
unfolding add_services
add_services-workers r [] id lb = refl
add_services-workers r (s ∷ ss) id lb =
    add_services-workers r ss id (add_service (r s.id) s lb)
    ∙ ap (merge r id ss) (add_service-workers (r s.id) s id lb)

breaker_for_kept :
    (t : Moment) (s : ServiceInfo) (id : Text) (w : Option WorkerNode) (b : Option CircuitBreaker)
    → breaker_for id (merge_service t s w) (breaker_for id w b) ≡ breaker_for id w b
breaker_for_kept t s id none b = refl
breaker_for_kept t s id (some w) b = refl

add_services-breakers :
    (r : Readings) (ss : List ServiceInfo) (id : Text) (lb : LoadBalancer)
    → find id (add_services r ss lb).circuit_breakers ≡ (
        if listed id ss
        then breaker_for id (find id lb.workers) (find id lb.circuit_breakers)
        else find id lb.circuit_breakers)
unfolding add_services
add_services-breakers r [] id lb = refl
add_services-breakers r (s ∷ ss) id lb =
    let next = add_service (r s.id) s lb in
    ground (
      arith,
      add_services-breakers r ss id next,
      add_service-breakers (r s.id) s id lb,
      add_service-workers (r s.id) s id lb,
      breaker_for_kept (r s.id) s id (find id lb.workers) (find id lb.circuit_breakers),
    )

current-listed :
    (ss : List ServiceInfo) (id : Text) (m : Map Bool)
    → find id (current_workers ss m) ≡ (if listed id ss then some true else find id m)
unfolding current_workers
current-listed [] id m = refl
current-listed (s ∷ ss) id m =
    ground (arith, current-listed ss id (put s.id true m), find-put s.id id true m)

current_unlisted :
    (ss : List ServiceInfo) (id : Text)
    → find id (current_workers ss []) ≡ (if listed id ss then some true else none)
unfolding find
current_unlisted ss id = current-listed ss id []

module _ (cur : Map Bool) where
  visit_keeps :
      (j id : Text) (b : Bool) (lb : LoadBalancer)
      → find id cur ≡ some b
      → (find id (remove_unless_current cur j lb).workers ≡ find id lb.workers)
        × (find id (remove_unless_current cur j lb).circuit_breakers ≡ find id lb.circuit_breakers)
  unfolding remove_unless_current
  visit_keeps j id b lb h =
      ground
        (arith, text_eq_iff j id, find-erase j id lb.workers, find-erase j id lb.circuit_breakers)

  visit_drops :
      (id : Text) (lb : LoadBalancer)
      → find id cur ≡ none
      → (find id (remove_unless_current cur id lb).workers ≡ none)
        × (find id (remove_unless_current cur id lb).circuit_breakers ≡ none)
  unfolding remove_unless_current
  visit_drops id lb h =
      ground (
        arith,
        text_eq_iff id id,
        find-erase id id lb.workers,
        find-erase id id lb.circuit_breakers,
      )

  visit_others :
      (j id : Text) (lb : LoadBalancer)
      → text_eq j id ≡ false
      → (find id (remove_unless_current cur j lb).workers ≡ find id lb.workers)
        × (find id (remove_unless_current cur j lb).circuit_breakers ≡ find id lb.circuit_breakers)
  unfolding remove_unless_current
  visit_others j id lb h =
      ground (arith, find-erase j id lb.workers, find-erase j id lb.circuit_breakers)

  remove_missing_keeps :
      (entries : Map WorkerNode) (id : Text) (b : Bool) (lb : LoadBalancer)
      → find id cur ≡ some b
      → (find id (remove_missing cur entries lb).workers ≡ find id lb.workers)
        × (find id (remove_missing cur entries lb).circuit_breakers ≡ find id lb.circuit_breakers)
  unfolding remove_missing
  remove_missing_keeps [] id b lb h = (refl, refl)
  remove_missing_keeps ((j, w) ∷ entries) id b lb h =
      let v = visit_keeps j id b lb h in
      let ih = remove_missing_keeps entries id b (remove_unless_current cur j lb) h in
      (ih.0 ∙ v.0, ih.1 ∙ v.1)

  remove_missing_drops :
      (entries : Map WorkerNode) (id : Text) (lb : LoadBalancer)
      → find id cur ≡ none
      → (find id entries ≡ none
          → (find id lb.workers ≡ none) × (find id lb.circuit_breakers ≡ none))
      → (find id (remove_missing cur entries lb).workers ≡ none)
        × (find id (remove_missing cur entries lb).circuit_breakers ≡ none)
  unfolding remove_missing find
  remove_missing_drops [] id lb h p = p refl
  remove_missing_drops ((j, w) ∷ entries) id lb h p =
      remove_missing_drops entries id (remove_unless_current cur j lb) h λ e.
        elim (Bool-cases (text_eq j id)) [
          | inl same ↦ rw ((text_eq_iff j id).0 same) (visit_drops id lb h)
          | inr other ↦
              let v = visit_others j id lb other in let q = p (rw other e) in (v.0 ∙ q.0, v.1 ∙ q.1)
        ]

merge_unlisted :
    (r : Readings) (id : Text) (ss : List ServiceInfo) (o : Option WorkerNode)
    → listed id ss ≡ false
    → merge r id ss o ≡ o
merge_unlisted r id [] o h = refl
merge_unlisted r id (s ∷ ss) o h = ground (arith, merge_unlisted r id ss o)

-- The workers and the breakers that belong together: a worker has a breaker, and none is left over.
pub record IsPaired (lb : LoadBalancer) : Type 0 where
  pub at : (id : Text) → (find id lb.workers ≡ none) ↔ (find id lb.circuit_breakers ≡ none)

-- After updateWorkers the map of workers holds, under each id, the node that the services with that
-- id leave (new and active if there was none, else the old one with address, port and heartbeat
-- renewed), and nothing if no service has the id; if workers and breakers were paired, a worker
-- that stays keeps its breaker, a new one has a new breaker, and the others lose theirs.
pub update_workers-find :
    (r : Readings) (services : List ServiceInfo) (id : Text) (lb : LoadBalancer)
    → IsPaired lb
    → (find id (update_workers r services lb).workers
        ≡ (if listed id services then merge r id services (find id lb.workers) else none))
      × (find id (update_workers r services lb).circuit_breakers ≡ (
          if listed id services
          then breaker_for id (find id lb.workers) (find id lb.circuit_breakers)
          else none))
unfolding update_workers
update_workers-find r services id lb paired =
    let added = add_services r services lb in
    let cur = current_workers services [] in
    let c = current_unlisted services id in
    let ws = add_services-workers r services id lb in
    let bs = add_services-breakers r services id lb in
    elim (Bool-cases (listed id services)) [
      | inl is_listed ↦
          let keep = remove_missing_keeps cur added.workers id true added (ground arith) in
          (ground arith, ground arith)
      | inr unlisted ↦
          let same : find id added.workers ≡ find id lb.workers =
            ws ∙ merge_unlisted r id services (find id lb.workers) unlisted in
          let gone =
            remove_missing_drops cur added.workers id added (ground arith)
              λ e. (e, ground (arith, (paired.at id).0 (sym same ∙ e))) in
          (ground arith, ground arith)
    ]
