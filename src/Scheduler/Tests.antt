-- ===== src/Scheduler/Tests.antt =====
-- The scheduler at concrete inputs, with the data of Dispatcher/Tests.antt.
mod Assignment
use mathlib.Core.Option
use my_taskflow_system.Common.{
  ℕ, ◌≡◌, refl, true, some, [], ◌∷◌, Text, codes, text_eq, text_ltb, c_str, arith, if◌then◌else◌,
}
use my_taskflow_system.Common.Int.{pos}
use my_taskflow_system.Common.Exec.{ok, throw, invalid_argument}
use my_taskflow_system.Common.Maps.{find, put}
use my_taskflow_system.Common.Decimal.{to_string}
use my_taskflow_system.Messages.{SubmitTaskRequest}
use my_taskflow_system.Snowflake.{Snowflake, next_id, compose}
use my_taskflow_system.Snowflake
use my_taskflow_system.Redis.Client.{connect, hash_set_all, push_right}
use my_taskflow_system.Redis.Tasks.{task_key, save_task, push_to_priority_queue}
use my_taskflow_system.Redis.Pool.{get_connection, new_pool, return_connection}
use my_taskflow_system.Redis.Laws.{as_hash}
use my_taskflow_system.Redis.RoundTrip.{IsTask}
use my_taskflow_system.Redis.Lists.{Holds, push_spec}
use my_taskflow_system.Redis.Sample.{Store, sample, sample_laws}
use my_taskflow_system.Balancer.Model.{WorkerNode, LoadBalancer, round_robin, active, Readings}
use my_taskflow_system.Balancer.Strategies.{select_worker}
use my_taskflow_system.Balancer.Model as Balancer
use my_taskflow_system.Balancer.Sample.{sort}
use my_taskflow_system.Dispatcher.Model.{submitted}
use my_taskflow_system.Dispatcher.Methods.{pop_next_task}
use my_taskflow_system.Dispatcher.Tests.{
  store, t1, mem, around, tired, queues, system, first, taken, pool-IsValid, found, t1_plain,
  store-Holds, tired-IsTask, old_task,
}
use my_taskflow_system.Scheduler.{
  Scheduler, submission, task_request, task_message, submit_task_rpc, get_task_status_rpc,
}
use my_taskflow_system.Scheduler.Loops.{is_late, check_round, dispatch_round}
use my_taskflow_system.Scheduler.Start.{redis_port}
use my_taskflow_system.Scheduler.Heartbeats.{buried, check_round-find}
use my_taskflow_system.Scheduler.Dispatch.{dispatch_round-requeued}
use my_taskflow_system.Scheduler.Journey.{submit_task_rpc-status}
use my_taskflow_system.Scheduler.Address.{redis_port_throws}

redis_port_throws_example : redis_port (codes "localhost:6379") ≡ throw invalid_argument
redis_port_throws_example = redis_port_throws b'l' (codes "ocalhost:6379") refl refl refl refl

abbrev node : WorkerNode
node = record {
  id = codes "w1";
  address = codes "localhost";
  port = pos 50052;
  current_load = pos 2;
  status = active;
  last_heartbeat = 1000;
  last_check = 0;
}

abbrev balancer : LoadBalancer
balancer = record {
  strategy = round_robin;
  workers = (codes "w1", node) ∷ [];
  round_robin_index = 0;
  circuit_breakers = [];
}

check_round-find_example :
    find (codes "w1") (check_round 16001 balancer).workers
    ≡ Option.map
        (λ (w : WorkerNode). if is_late 16001 w then buried w else w)
        (find (codes "w1") balancer.workers)
unfolding find
check_round-find_example = check_round-find 16001 balancer (codes "w1") (refl, refl, tt)

-- A heartbeat 15000 milliseconds ago is in time.
still_active : find (codes "w1") (check_round 16000 balancer).workers ≡ some node
unfolding check_round find text_eq
still_active = refl

abbrev t0 : ℕ
t0 = 1700000000000

abbrev issued : Snowflake
issued = record Snowflake.new { last_timestamp = pos t0 }

abbrev task_id : Text
task_id = codes "379755639603200000"

abbrev asked : SubmitTaskRequest
asked = record { type = pos 3; priority = pos 1; payload = codes "{}" }

abbrev scheduler : Scheduler Store
scheduler = record { system = system; ids = Snowflake.new }

next : next_id (t0 ∷ []) Snowflake.new ≡ (Snowflake.id 379755639603200000, issued, [])
unfolding next_id compose
next = refl

connected_later :
    get_connection around.attempts
      (submit_task_rpc sample around (t0 ∷ []) asked scheduler).1.system.pool
    ≡ (some first, taken)
unfolding submit_task_rpc next_id compose get_connection connect new_pool save_task hash_set_all put
    text_eq text_ltb to_string push_to_priority_queue push_right c_str return_connection
connected_later = refl

asked-IsTask : IsTask (submitted mem (task_request task_id around.clock.system asked))
asked-IsTask = omega arith

no_such_task : as_hash (store (task_key task_id)) ≡ some []
unfolding text_eq
no_such_task = refl

submit_task_rpc-status_example :
    ((submit_task_rpc sample around (t0 ∷ []) asked scheduler).0
      ≡ submission (to_string (pos 379755639603200000)) (ok true))
    × Holds sample sample_laws
        (submit_task_rpc sample around (t0 ∷ []) asked scheduler).1.system.redis
        (push_spec (pos 1) (to_string (pos 379755639603200000)) queues)
    × ((get_task_status_rpc sample around
          (to_string (pos 379755639603200000))
          (submit_task_rpc sample around (t0 ∷ []) asked scheduler).1.system).0
        ≡ ok (record {
          success = true;
          task = task_message (
              submitted mem
                (task_request (to_string (pos 379755639603200000)) around.clock.system asked));
          message = codes "Task found";
        }))
unfolding to_string
submit_task_rpc-status_example =
    submit_task_rpc-status sample sample_laws around around (t0 ∷ []) [] asked scheduler
      379755639603200000 issued first first taken taken queues [] next pool-IsValid found
      connected_later asked-IsTask no_such_task store-Holds

no_worker : select_worker sort (λ _. around.clock) t1 system.balancer ≡ ([], system.balancer)
unfolding select_worker Balancer.new
no_worker = refl

connected_after_pop :
    get_connection around.attempts (pop_next_task sample around system).1.pool ≡ (some first, taken)
unfolding pop_next_task get_connection connect new_pool return_connection
connected_after_pop = refl

dispatch_round-requeued_example :
    ((dispatch_round sample sort around around (λ _. around.clock) system).0 ≡ ok 1000)
    × Holds sample sample_laws
        (dispatch_round sample sort around around (λ _. around.clock) system).1.redis
        (record { high = []; medium = t1 ∷ []; low = [] })
dispatch_round-requeued_example =
    dispatch_round-requeued sample sample_laws sort around around (λ _. around.clock) tired
      system.balancer system first first taken taken [] [] (t1 ∷ []) [] pool-IsValid found
      connected_after_pop (record { high_ids = tt; medium_ids = tt; low_ids = (refl, tt) })
      store-Holds refl tired-IsTask t1_plain refl old_task no_worker
