-- ===== src/Scheduler/Tests/Assignment.antt =====
-- A round of the dispatch with a worker, on the server of Redis/Sample.antt.
use my_taskflow_system.Common.{
  ◌+◌, ◌≡◌, refl, true, [], ◌∷◌, Text, codes, text_eq, c_str, arith, if◌then◌else◌,
}
use my_taskflow_system.Common.Int.{pos}
use my_taskflow_system.Common.Maps.{find}
use my_taskflow_system.Common.Exec.{ok}
use my_taskflow_system.Common.Decimal.{to_string}
use my_taskflow_system.Redis.Client.{connect}
use my_taskflow_system.Redis.Tasks.{task_fields}
use my_taskflow_system.Redis.Pool.{new_pool}
use my_taskflow_system.Redis.Laws.{absent, list_value, hash_value, text_value, enter}
use my_taskflow_system.Redis.Usable.{usable_in}
use my_taskflow_system.Redis.RoundTrip.{Holds-enter}
use my_taskflow_system.Redis.Facts.{Facts, Stored}
use my_taskflow_system.Redis.Sample.{Store, sample, sample_laws}
use my_taskflow_system.Balancer.Model.{
  WorkerNode, LoadBalancer, round_robin, active, update_worker_load,
}
use my_taskflow_system.Balancer.Strategies.{select_worker}
use my_taskflow_system.Balancer.Sample.{sort}
use my_taskflow_system.Dispatcher.Model.{System}
use my_taskflow_system.Dispatcher.Effects.{assigned}
use my_taskflow_system.Dispatcher.Tests.{
  t1, around, tired, pool, pool-IsValid, t1_plain, tired-IsTask,
}
use my_taskflow_system.Scheduler.Loops.{dispatch_round}
use my_taskflow_system.Scheduler.Assignment.{dispatch_round-assigned}

abbrev w1 : Text
w1 = codes "w1"

abbrev node : WorkerNode
node = record {
  id = w1;
  address = codes "localhost";
  port = pos 50060;
  current_load = pos 2;
  status = active;
  last_heartbeat = 1700000000000;
  last_check = 0;
}

abbrev one_worker : LoadBalancer
one_worker = record {
  strategy = round_robin;
  workers = (w1, node) ∷ [];
  round_robin_index = 0;
  circuit_breakers = [];
}

abbrev facts : Facts
facts = record {
  fields = enter (task_fields tired) [];
  load = 2;
  queues = record { high = []; medium = []; low = t1 ∷ [] };
}

abbrev loaded : Store
loaded k =
    if text_eq k (codes "queue:low")
    then list_value (t1 ∷ [])
    else if text_eq k (codes "task:t1")
    then hash_value facts.fields
    else if text_eq k (codes "worker:load:w1")
    then text_value (to_string (pos 2))
    else absent

abbrev ready : System Store
ready = record { redis = loaded; pool = pool; balancer = one_worker }

loaded-Stored : Stored sample sample_laws t1 w1 facts loaded
unfolding text_eq
loaded-Stored = record {
  hash = refl;
  worker = refl;
  waiting = record { high_list = refl; medium_list = refl; low_list = refl };
}

w1_plain : c_str w1 ≡ w1
unfolding c_str
w1_plain = refl

free_client : usable_in pool ≡ true
unfolding new_pool connect
free_client = refl

chosen :
    select_worker sort (λ _. around.clock) t1 one_worker
    ≡ (w1, record one_worker { round_robin_index = 1 })
unfolding select_worker text_eq find
chosen = refl

dispatch_round-assigned_example :
    let round = dispatch_round sample sort around around (λ _. around.clock) ready in
    (round.0 ≡ ok 0)
    × Stored sample sample_laws t1 w1
        (record {
          fields = assigned 1700000000000 w1 facts.fields;
          load = 2 + 1;
          queues = record { high = []; medium = []; low = [] };
        })
        round.1.redis
    × (round.1.balancer
        ≡ update_worker_load w1 (pos (2 + 1)) (record one_worker { round_robin_index = 1 }))
dispatch_round-assigned_example =
    dispatch_round-assigned sample sample_laws sort around around (λ _. around.clock) tired w1
      (record one_worker { round_robin_index = 1 }) ready facts pool-IsValid free_client
      (record { high_ids = tt; medium_ids = tt; low_ids = (refl, tt) }) refl tired-IsTask
      (Holds-enter tired []) t1_plain w1_plain refl refl (omega arith) chosen loaded-Stored
