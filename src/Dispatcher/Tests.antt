-- ===== src/Dispatcher/Tests.antt =====
-- The dispatcher at concrete inputs, with the server of Redis/Sample.antt.
pub mod Effects
mod Overlap
use my_taskflow_system.Common.{
  ◌≡◌, refl, true, false, some, [], ◌∷◌, Text, codes, c_str, text_eq, text_ltb, arith,
  if◌then◌else◌,
}
use my_taskflow_system.Common.Int.{pos, negsuc}
use my_taskflow_system.Common.Maps.{find, put}
use my_taskflow_system.Common.Exec.{ok}
use my_taskflow_system.Common.Decimal.{to_string}
use my_taskflow_system.Redis.Client.{established, connect}
use my_taskflow_system.Redis.Tasks.{TaskInfo, Memory, task_fields, get_task}
use my_taskflow_system.Redis.Pool.{Shared, RedisPool, new_pool, get_connection}
use my_taskflow_system.Redis.Laws.{absent, list_value, hash_value, as_hash, enter}
use my_taskflow_system.Redis.Claims.{IsValid}
use my_taskflow_system.Redis.RoundTrip.{IsTask}
use my_taskflow_system.Redis.Lists.{Queues, Holds}
use my_taskflow_system.Redis.Sample.{Store, sample, sample_laws}
use my_taskflow_system.Balancer.Model as Balancer
use my_taskflow_system.Dispatcher.Model.{TaskRequest, TaskResult, System, Surroundings, submitted}
use my_taskflow_system.Dispatcher.Methods.{submit_task, pop_next_task, retry_task}
use my_taskflow_system.Dispatcher.Closing.{Returned}
use my_taskflow_system.Dispatcher.Connections.{perform, completes, perform-Returned}
use my_taskflow_system.Dispatcher.Submission.{submit_task-queued, pop_next_task-pop_spec}
use my_taskflow_system.Dispatcher.Retries.{retry_task_refuses}

abbrev pub t1 : Text
t1 = codes "t1"

abbrev pub t2 : Text
t2 = codes "t2"

abbrev pub mem : Memory
mem = record {
  type = pos 77;
  priority = pos 77;
  created_at = negsuc 0;
  started_at = pos 5;
  finished_at = pos 5;
  status = pos 99;
  retry_count = pos 1234;
}

abbrev pub around : Surroundings
around = record {
  attempts = λ _. established;
  clock = record { system = 1700000000000; steady = 1000 };
  memory = mem;
  second_memory = mem;
  negative_shift = pos 0;
}

-- A task that has been tried again three times.
abbrev pub tired : TaskInfo
tired = record {
  id = t1;
  type = pos 2;
  priority = pos 1;
  payload = codes "{}";
  created_at = pos 1700000000000;
  started_at = pos 0;
  finished_at = negsuc 6;
  status = pos 3;
  retry_count = pos 3;
  error_message = codes "timeout";
  result = [];
}

abbrev pub store : Store
store k =
    if text_eq k (codes "queue:low")
    then list_value (t1 ∷ [])
    else if text_eq k (codes "task:t1")
    then hash_value (enter (task_fields tired) [])
    else absent

abbrev pub queues : Queues
queues = record { high = []; medium = []; low = t1 ∷ [] }

abbrev pub pool : RedisPool
pool = new_pool (codes "localhost") (pos 6379) (established ∷ established ∷ [])

abbrev pub system : System Store
system = record { redis = store; pool = pool; balancer = Balancer.new (codes "round_robin") }

abbrev pub request : TaskRequest
request = record {
  id = t2;
  type = pos 1;
  priority = pos 2;
  payload = codes "{}";
  created_at = pos 1700000000000;
  retry_count = pos 0;
  max_retries = pos 3;
}

abbrev pub first : Shared
first = record {
  pointer = 0;
  client = record { host = codes "localhost"; port = pos 6379; context = true; connected = true };
}

abbrev pub taken : RedisPool
taken = record pool { in_use = true ∷ false ∷ [] }

pub pool-IsValid : IsValid pool
unfolding new_pool
pool-IsValid = ground arith

pub found : get_connection (λ _. established) pool ≡ (some first, taken)
unfolding new_pool get_connection connect
found = refl

pub t1_plain : c_str t1 ≡ t1
unfolding c_str
t1_plain = refl

pub t2_plain : c_str t2 ≡ t2
unfolding c_str
t2_plain = refl

pub store-Holds : Holds sample sample_laws store queues
unfolding text_eq
store-Holds = record { high_list = refl; medium_list = refl; low_list = refl }

new_task : as_hash (store (codes "task:t2")) ≡ some []
unfolding text_eq
new_task = refl

pub old_task : as_hash (store (codes "task:t1")) ≡ some (enter (task_fields tired) [])
unfolding text_eq
old_task = refl

pub request-IsTask : IsTask (submitted mem request)
request-IsTask = omega arith

pub tired-IsTask : IsTask tired
tired-IsTask = omega arith

tired_status : find (codes "status") (enter (task_fields tired) []) ≡ some (to_string (pos 3))
unfolding find task_fields put text_eq text_ltb
tired_status = refl

abbrev pub result : TaskResult
result = record {
  task_id = t1;
  success = true;
  result = codes "ok";
  error_message = [];
  completed_at = pos 0;
}

perform-Returned_example : Returned true pool (perform sample (completes t1 result) around system)
perform-Returned_example = perform-Returned sample (completes t1 result) around system pool-IsValid

retry_task_refuses_example :
    ((retry_task sample around t1 system).0 ≡ ok false)
    × ((j : Text)
        → sample_laws.view (retry_task sample around t1 system).1.redis j
          ≡ sample_laws.view store j)
retry_task_refuses_example =
    retry_task_refuses sample sample_laws around tired system first taken [] pool-IsValid found
      tired-IsTask t1_plain old_task (omega arith)
