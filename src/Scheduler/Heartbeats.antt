-- ===== src/Scheduler/Heartbeats.antt =====
-- scheduler.cpp, workerCheckLoop: what one round does to each worker.
use mathlib.Core.Option
use my_taskflow_system.Common.{
  ℕ, ◌≡◌, refl, ap, ◌∙◌, Bool, true, false, ◌&&◌, ◌||◌, Option, none, some, List, [], ◌∷◌, Text,
  text_eq, text_eq_iff, map, Bool-cases, Option-cases, inl, inr, arith, if◌then◌else◌,
}
use my_taskflow_system.Common.Maps.{Map, find, find-put}
use my_taskflow_system.Balancer.Model.{
  WorkerNode, LoadBalancer, mark_worker_dead, get_workers, dead,
}
use my_taskflow_system.Scheduler.Loops.{is_late, mark_late, check_round}

-- The node of a worker that is marked dead.
abbrev pub buried : WorkerNode → WorkerNode
buried w = record w { status = dead }

-- The map of the balancer: one entry for each key, and the key is the id of the node.
abbrev pub IsKeyed : Map WorkerNode → Type 0
IsKeyed [] = Unit
IsKeyed ((k, w) ∷ m) = (w.id ≡ k) × (find k m ≡ none) × IsKeyed m

mark_worker_dead-find :
    (k id : Text) (lb : LoadBalancer)
    → find id (mark_worker_dead k lb).workers
      ≡ (if text_eq k id then Option.map buried (find id lb.workers) else find id lb.workers)
unfolding mark_worker_dead
mark_worker_dead-find k id lb = elim (Option-cases (find k lb.workers)) [
  | inl e ↦ ground (arith, text_eq_iff k id)
  | inr (w, e) ↦ ground (arith, text_eq_iff k id, find-put k id (buried w) lb.workers)
]

-- Some worker of the list with the id is late.
abbrev late_in : ℕ → Text → List WorkerNode → Bool
late_in now id [] = false
late_in now id (w ∷ ws) = (is_late now w && text_eq w.id id) || late_in now id ws

abbrev bury_if : Bool → Option WorkerNode → Option WorkerNode
bury_if b o = if b then Option.map buried o else o

bury_twice : (a b : Bool) (o : Option WorkerNode) → bury_if b (bury_if a o) ≡ bury_if (a || b) o
bury_twice true true none = refl
bury_twice true true (some w) = refl
bury_twice true false o = refl
bury_twice false b o = refl

mark_if-find :
    (late : Bool) (k id : Text) (lb : LoadBalancer)
    → find id (if late then mark_worker_dead k lb else lb).workers
      ≡ bury_if (late && text_eq k id) (find id lb.workers)
mark_if-find true k id lb = mark_worker_dead-find k id lb
mark_if-find false k id lb = refl

mark_late-find :
    (now : ℕ) (ws : List WorkerNode) (id : Text) (lb : LoadBalancer)
    → find id (mark_late now ws lb).workers ≡ bury_if (late_in now id ws) (find id lb.workers)
unfolding mark_late
mark_late-find now [] id lb = refl
mark_late-find now (w ∷ ws) id lb =
    mark_late-find now ws id (if is_late now w then mark_worker_dead w.id lb else lb)
    ∙ ap (bury_if (late_in now id ws)) (mark_if-find (is_late now w) w.id id lb)
    ∙ bury_twice (is_late now w && text_eq w.id id) (late_in now id ws) (find id lb.workers)

-- The workers of a round, entry by entry.
abbrev bury_late : ℕ → WorkerNode → WorkerNode
bury_late now w = if is_late now w then buried w else w

no_later : (b : Bool) → (b && false) || false ≡ false
no_later true = refl
no_later false = refl

late_in-none :
    (now : ℕ) (id : Text) (m : Map WorkerNode)
    → IsKeyed m
    → find id m ≡ none
    → late_in now id (map (λ e. e.1) m) ≡ false
unfolding find
late_in-none now id [] k h = refl
late_in-none now id ((j, w) ∷ m) k h = elim (Bool-cases (text_eq j id)) [
  | inl same ↦ absurd (ground (arith, same))
  | inr other ↦
      let rest : find id m ≡ none = rw other at h in
      rw (k.0, other, late_in-none now id m k.2 rest) (no_later (is_late now w))
]

bury_one :
    (b : Bool) (w : WorkerNode)
    → bury_if ((b && true) || false) (some w) ≡ some (if b then buried w else w)
bury_one true w = refl
bury_one false w = refl

later : (a b : Bool) (o : Option WorkerNode) → bury_if ((a && false) || b) o ≡ bury_if b o
later true b o = refl
later false b o = refl

late_in-find :
    (now : ℕ) (id : Text) (m : Map WorkerNode)
    → IsKeyed m
    → bury_if (late_in now id (map (λ e. e.1) m)) (find id m)
      ≡ Option.map (bury_late now) (find id m)
unfolding find
late_in-find now id [] k = refl
late_in-find now id ((j, w) ∷ m) k = elim (Bool-cases (text_eq j id)) [
  | inl same ↦
      let named : text_eq w.id id ≡ true = ap (λ i. text_eq i id) k.0 ∙ same in
      let at_id : j ≡ id = (text_eq_iff j id).0 same in
      let absent : find id m ≡ none = rw at_id at k.1 in
      rw (named, same, late_in-none now id m k.2 absent) (bury_one (is_late now w) w)
  | inr other ↦
      rw (ap (λ i. text_eq i id) k.0 ∙ other, other)
        (later (is_late now w) _ (find id m) ∙ late_in-find now id m k.2)
]

-- A round of workerCheckLoop marks as dead exactly the workers whose last heartbeat is more than
-- 15000 milliseconds before now, and leaves every other entry of the map as it is, if the key of
-- each entry is the id of its worker and no key stands twice.
pub check_round-find :
    (now : ℕ) (lb : LoadBalancer) (id : Text)
    → IsKeyed lb.workers
    → find id (check_round now lb).workers
      ≡ Option.map (λ (w : WorkerNode). if is_late now w then buried w else w) (find id lb.workers)
unfolding check_round get_workers
check_round-find now lb id k =
    mark_late-find now (map (λ e. e.1) lb.workers) id lb ∙ late_in-find now id lb.workers k
