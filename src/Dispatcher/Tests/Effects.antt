-- ===== src/Dispatcher/Tests/Effects.antt =====
-- The life of a task at concrete inputs, with the server of Redis/Sample.antt.
use my_taskflow_system.Common.{
  ◌^◌, List, ◌≡◌, refl, true, some, [], ◌∷◌, Text, codes, c_str, text_eq, text_ltb, arith,
  if◌then◌else◌, ◌+◌, ◌-◌, ◌++◌,
}
use my_taskflow_system.Common.Bags.{bag}
use my_taskflow_system.Common.Int.{pos}
use my_taskflow_system.Common.Maps.{Map, find, put}
use my_taskflow_system.Common.Exec.{ok}
use my_taskflow_system.Common.Decimal.{to_string}
use my_taskflow_system.Redis.Tasks.{push_to_priority_queue, TaskInfo, task_fields}
use my_taskflow_system.Redis.Laws.{absent, text_value, hash_value, list_value, enter}
use my_taskflow_system.Redis.Client.{set_expiring, connect}
use my_taskflow_system.Redis.Pool.{new_pool}
use my_taskflow_system.Redis.Usable.{usable_in}
use my_taskflow_system.Redis.RoundTrip.{IsTask, Holds-enter}
use my_taskflow_system.Redis.Lists.{Queues}
use my_taskflow_system.Redis.Loads.{LoadIs}
use my_taskflow_system.Redis.Facts.{Facts, Stored}
use my_taskflow_system.Redis.Sample.{Store, sample, sample_laws}
use my_taskflow_system.Balancer.Model.{update_worker_load, record_success_of, record_failure_of}
use my_taskflow_system.Balancer.Model as Balancer
use my_taskflow_system.Dispatcher.Model.{TaskRequest, System, Surroundings, submitted}
use my_taskflow_system.Dispatcher.Methods.{
  submit_task, retry_task, fail_task, complete_task, assign_task_to_worker, get_task_info,
}
use my_taskflow_system.Dispatcher.Requeue.{retry_task-Stored}
use my_taskflow_system.Dispatcher.Again.{retry_task-fail_task}
use my_taskflow_system.Redis.Lists as Queues
use my_taskflow_system.Dispatcher.LifeCycle.{running, succeeded, complete_task-submit_task}
use my_taskflow_system.Dispatcher.Traffic.{Traffic, submission, pop, traffic, waiting}
use my_taskflow_system.Dispatcher.Conservation.{
  Serves, WellFormed, traffic-traffic_spec, traffic_conserves,
}
use my_taskflow_system.Dispatcher.Tests.{
  as_hash, t1, mem, around, pool, first, taken, pool-IsValid, found, t1_plain, request, result,
  request-IsTask, t2_plain, t2,
}

abbrev pub w1 : Text
w1 = codes "w1"

-- A task that w1 has, tried again once.
abbrev busy_task : TaskInfo
busy_task = record {
  id = t1;
  type = pos 2;
  priority = pos 1;
  payload = codes "{}";
  created_at = pos 1700000000000;
  started_at = pos 1700000000100;
  finished_at = pos 0;
  status = pos 1;
  retry_count = pos 1;
  error_message = [];
  result = [];
}

abbrev busy : Facts
busy = record {
  fields = enter (task_fields busy_task) (put (codes "worker_id") w1 []);
  load = 4;
  queues = record { high = []; medium = t2 ∷ []; low = [] };
}

abbrev busy_store : Store
busy_store k =
    if text_eq k (codes "queue:medium")
    then list_value (t2 ∷ [])
    else if text_eq k (codes "task:t1")
    then hash_value busy.fields
    else if text_eq k (codes "worker:load:w1")
    then text_value (to_string (pos 4))
    else absent

abbrev busy_system : System Store
busy_system = record {
  redis = busy_store;
  pool = pool;
  balancer = Balancer.new (codes "round_robin");
}

pool_usable : usable_in pool ≡ true
unfolding new_pool connect
pool_usable = refl

w1_plain : c_str w1 ≡ w1
unfolding c_str
w1_plain = refl

timeout_plain : c_str (codes "timeout") ≡ codes "timeout"
unfolding c_str
timeout_plain = refl

busy_store-Stored : Stored sample sample_laws t1 w1 busy busy_store
unfolding text_eq
busy_store-Stored = record {
  hash = refl;
  worker = refl;
  waiting = record { high_list = refl; medium_list = refl; low_list = refl };
}

has_worker : find (codes "worker_id") busy.fields ≡ some w1
unfolding find task_fields put text_eq text_ltb
has_worker = refl

busy_task-IsTask : IsTask busy_task
busy_task-IsTask = omega arith

retry_task-fail_task_example :
    let one = fail_task sample around t1 (codes "timeout") busy_system in
    let two = retry_task sample around t1 one.1 in
    (one.0 ≡ ok true)
    × (two.0 ≡ ok true)
    × LoadIs sample sample_laws w1 (4 - 2) two.1.redis
    × Queues.Holds sample sample_laws two.1.redis
        (record { high = []; medium = t2 ∷ t1 ∷ []; low = [] })
retry_task-fail_task_example =
    retry_task-fail_task sample sample_laws around around busy_task 1 w1 (codes "timeout")
      busy_system busy pool-IsValid pool_usable busy_task-IsTask
      (Holds-enter busy_task (put (codes "worker_id") w1 [])) refl (omega arith) t1_plain w1_plain
      timeout_plain refl has_worker (omega arith) (omega arith) busy_store-Stored

retry_task-Stored_example :
    let r = retry_task sample around t1 busy_system in
    (r.0 ≡ ok true)
    × Stored sample sample_laws t1 w1
        (record {
          fields = put (codes "retry_count") (to_string (pos (1 + 1))) busy.fields;
          load = 4 - 1;
          queues = record { high = []; medium = t2 ∷ t1 ∷ []; low = [] };
        })
        r.1.redis
    × (r.1.balancer ≡ update_worker_load w1 (pos (4 - 1)) busy_system.balancer)
    × ((earlier : Store) × (r.1.redis
          ≡ (push_to_priority_queue sample first.client busy_task.priority t1
              (set_expiring sample first.client
                (codes "retry:" ++ to_string (pos (2 ^ 1)) ++ codes ":" ++ t1)
                t1
                (pos (2 ^ 1))
                earlier).1).1))
    × (sample_laws.view r.1.redis (codes "retry:" ++ to_string (pos (2 ^ 1)) ++ codes ":" ++ t1)
        ≡ text_value t1)
retry_task-Stored_example =
    retry_task-Stored sample sample_laws around busy_system first taken pool-IsValid found t1 w1
      t1_plain w1_plain busy busy_store-Stored busy_task 1 refl busy_task-IsTask
      (Holds-enter busy_task (put (codes "worker_id") w1 [])) refl (omega arith) refl has_worker
      (omega arith)

-- A worker with nothing to do, and no task.
abbrev pub idle : Facts
idle = record { fields = []; load = 0; queues = record { high = []; medium = []; low = [] } }

abbrev pub idle_store : Store
idle_store k = if text_eq k (codes "worker:load:w1") then text_value (to_string (pos 0)) else absent

abbrev idle_system : System Store
idle_system = record {
  redis = idle_store;
  pool = pool;
  balancer = Balancer.new (codes "round_robin");
}

pub idle_store-Stored : Stored sample sample_laws t2 w1 idle idle_store
unfolding text_eq
idle_store-Stored = record {
  hash = refl;
  worker = refl;
  waiting = record { high_list = refl; medium_list = refl; low_list = refl };
}

result_plain : c_str (codes "ok") ≡ codes "ok"
unfolding c_str
result_plain = refl

complete_task-submit_task_example :
    let one = submit_task sample around request idle_system in
    let two = assign_task_to_worker sample around t2 w1 one.1 in
    let three = complete_task sample around t2 result two.1 in
    (one.0 ≡ ok true)
    × (two.0 ≡ ok true)
    × (three.0 ≡ ok true)
    × ((get_task_info sample around t2 three.1).0
        ≡ ok (succeeded 1700000000000 (codes "ok") (running 1700000000000 (submitted mem request))))
    × LoadIs sample sample_laws w1 0 three.1.redis
    × (three.1.balancer
        ≡ record_success_of w1 (
            update_worker_load w1
              (pos 0)
              (update_worker_load w1 (pos (0 + 1)) idle_system.balancer)))
complete_task-submit_task_example =
    complete_task-submit_task sample sample_laws around around around around request w1 result
      idle_system idle pool-IsValid pool_usable request-IsTask t2_plain w1_plain result_plain refl
      refl (omega arith) (omega arith) (omega arith) idle_store-Stored

-- Two submissions, one of them after the first pop, and a pop of empty queues.
abbrev pub low_request : TaskRequest
low_request = record request { id = t1; priority = pos 0 }

abbrev calls_made : List (Surroundings × Traffic)
calls_made =
    (around, submission low_request)
    ∷ (around, pop)
    ∷ (around, submission request)
    ∷ (around, pop)
    ∷ (around, pop)
    ∷ []

abbrev pub no_queues : Queues
no_queues = record { high = []; medium = []; low = [] }

abbrev pub key_of : Text → Text
key_of task_id = codes "task:" ++ task_id

pub no_hashes : (task_id : Text) → (m : Map Text) × (as_hash (idle_store (key_of task_id)) ≡ some m)
unfolding text_eq
no_hashes task_id = ([], refl)

idle_system-Serves : Serves sample sample_laws idle_system no_queues
idle_system-Serves = record {
  valid = pool-IsValid;
  usable = pool_usable;
  fit = record { high_ids = tt; medium_ids = tt; low_ids = tt };
  queued = idle_store-Stored.waiting;
  hashes = no_hashes;
}

pub low_request-IsTask : IsTask (submitted mem low_request)
low_request-IsTask = omega arith

calls_made-WellFormed : WellFormed calls_made
calls_made-WellFormed = (refl, t1_plain, low_request-IsTask, (refl, t2_plain, request-IsTask, tt))

traffic-traffic_spec_example :
    ((traffic sample calls_made idle_system).0 ≡ t1 ∷ t2 ∷ [])
    × Serves sample sample_laws (traffic sample calls_made idle_system).1 no_queues
traffic-traffic_spec_example =
    traffic-traffic_spec sample sample_laws calls_made idle_system no_queues calls_made-WellFormed
      idle_system-Serves

traffic_conserves_example :
    (after : Queues) × Serves sample sample_laws (traffic sample calls_made idle_system).1 after
    × (bag (t1 ∷ t2 ∷ []) ≡ bag ((traffic sample calls_made idle_system).0 ++ waiting after))
traffic_conserves_example =
    traffic_conserves sample sample_laws calls_made idle_system no_queues calls_made-WellFormed
      idle_system-Serves
