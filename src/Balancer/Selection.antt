-- ===== src/Balancer/Selection.antt =====
-- The workers among which a selection chooses, and what each strategy returns.
use my_taskflow_system.Common.{
  ℕ, ◌≡◌, refl, ◌∙◌, inl, inr, Bool, true, ◌&&◌, Option, none, some, [], ◌∷◌, Text, keep, text_eq,
  text_eq_iff, Bool-cases, Option-cases, arith, if◌then◌else◌,
}
use my_taskflow_system.Common.Maps.{Map, find, find-put}
use my_taskflow_system.Breaker.{CircuitBreaker, allow_request}
use my_taskflow_system.Balancer.Model.{WorkerNode, Moment, Readings, active}
use my_taskflow_system.Balancer.Strategies.{available, admit, admit_worker}

-- The breaker of the worker, if it has one, lets a request through at the time of the readings.
abbrev pub granted : Readings → Map CircuitBreaker → Text → Bool
granted r bs id = elim (find id bs) [ none ↦ true | some b ↦ (allow_request (r id).steady b).0 ]

-- The active workers whose breakers let a request through.
abbrev pub eligible : Readings → Map CircuitBreaker → Map WorkerNode → Map WorkerNode
eligible r bs = keep (λ e. text_eq e.1.status active && granted r bs e.0)

-- To ask a breaker again at the same time gives the same answer.
allow_request_again :
    (now : ℕ) (b : CircuitBreaker)
    → (allow_request now (allow_request now b).1).0 ≡ (allow_request now b).0
unfolding allow_request
allow_request_again now b = ground arith

-- The breaker under an id after the breaker of a worker was asked.
abbrev asked : Moment → Bool → Option CircuitBreaker → Option CircuitBreaker
asked t same none = none
asked t same (some b) = some (if same then (allow_request t.steady b).1 else b)

admit-find :
    (t : Moment) (id j : Text) (bs : Map CircuitBreaker)
    → find j (admit t id bs).1 ≡ asked t (text_eq id j) (find j bs)
unfolding admit
admit-find t id j bs = elim (Option-cases (find id bs)) [
  | inl e ↦ rw (e, admit) (ground (arith, text_eq_iff id j))
  | inr (b, e) ↦
      rw (e, admit)
        (ground (arith, text_eq_iff id j, find-put id j (allow_request t.steady b).1 bs))
]

asked_again :
    (r : Readings) (id j : Text) (o : Option CircuitBreaker)
    → elim (asked (r id) (text_eq id j) o) as (λ _. Bool) [
      | none ↦ true
      | some b ↦ (allow_request (r j).steady b).0
    ]
      ≡ elim o as (λ _. Bool) [ none ↦ true | some b ↦ (allow_request (r j).steady b).0 ]
asked_again r id j none = refl
asked_again r id j (some b) = elim (Bool-cases (text_eq id j)) [
  | inl same ↦ rw (same, (text_eq_iff id j).0 same) (allow_request_again (r j).steady b)
  | inr other ↦ rw other
]

granted-admit :
    (r : Readings) (id j : Text) (bs : Map CircuitBreaker)
    → granted r (admit (r id) id bs).1 j ≡ granted r bs j
granted-admit r id j bs = rw (admit-find (r id) id j bs, granted) (asked_again r id j (find j bs))

pub granted-admit_worker :
    (r : Readings) (id j : Text) (w : WorkerNode) (bs : Map CircuitBreaker)
    → granted r (admit_worker (r id) id w bs).1 j ≡ granted r bs j
unfolding admit_worker
granted-admit_worker r id j w bs = elim (Bool-cases (text_eq w.status active)) [
  | inl up ↦ rw up (granted-admit r id j bs)
  | inr down ↦ rw down
]

admit-granted :
    (r : Readings) (id : Text) (bs : Map CircuitBreaker) → (admit (r id) id bs).0 ≡ granted r bs id
unfolding admit
admit-granted r id bs = elim (Option-cases (find id bs)) [
  | inl e ↦ rw (e, admit, granted)
  | inr (b, e) ↦ rw (e, admit, granted)
]

admit_worker-granted :
    (r : Readings) (id : Text) (w : WorkerNode) (bs : Map CircuitBreaker)
    → (admit_worker (r id) id w bs).0 ≡ (text_eq w.status active && granted r bs id)
unfolding admit_worker
admit_worker-granted r id w bs = elim (Bool-cases (text_eq w.status active)) [
  | inl up ↦ rw up (admit-granted r id bs)
  | inr down ↦ rw down
]

pub eligible_congr :
    (r : Readings) (bs bs' : Map CircuitBreaker) (ws : Map WorkerNode)
    → ((j : Text) → granted r bs' j ≡ granted r bs j)
    → eligible r bs' ws ≡ eligible r bs ws
eligible_congr r bs bs' [] h = refl
eligible_congr r bs bs' ((id, w) ∷ ws) h = rw (h id, eligible_congr r bs bs' ws h)

-- The loop that asks each breaker in turn, and may leave breakers half open, goes on with the
-- active workers whose breakers let a request through when the loop begins, in the map's order.
pub available-eligible :
    (r : Readings) (ws : Map WorkerNode) (bs : Map CircuitBreaker)
    → (available r ws bs).0 ≡ eligible r bs ws
unfolding available
available-eligible r [] bs = refl
available-eligible r ((id, w) ∷ ws) bs =
    let rest =
      available-eligible r ws (admit_worker (r id) id w bs).1
      ∙ eligible_congr r bs (admit_worker (r id) id w bs).1 ws
          (λ j. granted-admit_worker r id j w bs) in
    rw (rest, admit_worker-granted r id w bs)
