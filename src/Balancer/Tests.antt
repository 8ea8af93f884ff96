-- ===== src/Balancer/Tests.antt =====
-- The load balancer at concrete inputs.
use my_taskflow_system.Common.Maps.{put}
use my_taskflow_system.Common.{text_eq}
use my_taskflow_system.Common.{
  text_ltb, ◌≡◌, refl, ◌⊎◌, some, List, [], ◌∷◌, Text, codes, text_eq, text_ltb, arith,
}
use my_taskflow_system.Common.Int.{pos}
use my_taskflow_system.Common.Maps.{find, put}
use my_taskflow_system.Breaker.{CircuitBreaker, allow_request}
use my_taskflow_system.Breaker
use my_taskflow_system.Balancer.Model.{
  ServiceInfo, WorkerNode, LoadBalancer, Readings, new, update_workers, fresh_node,
  get_worker_count, mark_worker_dead,
}
use my_taskflow_system.Balancer.Strategies.{
  select_worker, hash, circles, round_robin_select, least_connection_select, consistent_hash_select,
}
use my_taskflow_system.Balancer.Workers.{IsPaired, merge, breaker_for, update_workers-find}
use my_taskflow_system.Balancer.Pairing.{updates, kills, step, step-IsPaired}
use my_taskflow_system.Balancer.Choice.{
  IsLeast, IsNext, candidates, least_connection_select-IsLeast, consistent_hash_select-IsNext,
}
use my_taskflow_system.Balancer.Rotation.{
  Answers, select_worker-Answers, rounds, rounds_take_turns, DeadOrGone, step-DeadOrGone,
}
use my_taskflow_system.Balancer.Sample.{sort, sort_laws}

abbrev service : Text → ServiceInfo
service id = record {
  name = codes "taskflow-worker";
  id = id;
  address = codes "127.0.0.1";
  port = pos 50052;
  metadata = [];
  lease_id = pos 1;
  last_update = pos 0;
}

abbrev a : Text
a = codes "a"

abbrev b : Text
b = codes "b"

abbrev services : List ServiceInfo
services = service b ∷ service a ∷ []

abbrev at_start : Readings
at_start _ = record { system = 1700000000000; steady = 1000 }

abbrev empty : LoadBalancer
empty = new (codes "round_robin")

abbrev two : LoadBalancer
two = step sort empty (updates at_start services)

empty-IsPaired : IsPaired empty
unfolding new find
empty-IsPaired = record { at = λ id. (λ h. refl, λ h. refl) }

two-IsPaired : IsPaired two
two-IsPaired = step-IsPaired sort empty (updates at_start services) empty-IsPaired

two_workers : get_worker_count two ≡ 2
unfolding get_worker_count step new update_workers find put text_eq text_ltb
two_workers = refl

step-IsPaired_example : IsPaired (step sort two (kills a))
step-IsPaired_example = step-IsPaired sort two (kills a) two-IsPaired

update_workers-find_example :
    (find b (update_workers at_start (service b ∷ []) two).workers
      ≡ merge at_start b (service b ∷ []) (find b two.workers))
    × (find b (update_workers at_start (service b ∷ []) two).circuit_breakers
        ≡ breaker_for b (find b two.workers) (find b two.circuit_breakers))
unfolding text_eq
update_workers-find_example = update_workers-find at_start (service b ∷ []) b two two-IsPaired

least_connection_select-IsLeast_example :
    ((candidates at_start two ≡ []) × ((least_connection_select at_start two).0 ≡ []))
    ⊎ IsLeast (least_connection_select at_start two).0 (candidates at_start two)
least_connection_select-IsLeast_example = least_connection_select-IsLeast at_start two

consistent_hash_select-IsNext_example :
    ((candidates at_start two ≡ []) × ((consistent_hash_select sort at_start a two).0 ≡ []))
    ⊎ IsNext
        (hash a)
        (consistent_hash_select sort at_start a two).0
        (circles (candidates at_start two))
consistent_hash_select-IsNext_example =
    consistent_hash_select-IsNext sort sort_laws at_start 97 [] two

select_worker-Answers_example :
    Answers (select_worker sort at_start [] two).0 (candidates at_start two)
select_worker-Answers_example = select_worker-Answers sort sort_laws at_start [] two

abbrev node : Text → WorkerNode
node id = fresh_node (at_start id) (service id)

two-candidates : candidates at_start two ≡ (a, node a) ∷ (b, node b) ∷ []
unfolding step new update_workers find text_eq text_ltb put allow_request Breaker.new
two-candidates = refl

rounds_take_turns_example : (round_robin_select at_start (rounds 3 at_start two)).0 ≡ b
unfolding step new update_workers find text_eq text_ltb put
rounds_take_turns_example =
    rounds_take_turns 3 at_start two (a, node a) ((b, node b) ∷ []) two-candidates (omega arith)

abbrev one_dead : LoadBalancer
one_dead = step sort two (kills a)

dead_found : find a one_dead.workers ≡ some (record (node a) { status = codes "dead" })
unfolding step new update_workers find text_eq text_ltb put mark_worker_dead
dead_found = refl

step-DeadOrGone_example : DeadOrGone a (step sort one_dead (updates at_start services))
step-DeadOrGone_example =
    step-DeadOrGone sort one_dead (updates at_start services) a
      (record (node a) { status = codes "dead" }) (step-IsPaired sort two (kills a) two-IsPaired)
      dead_found refl
