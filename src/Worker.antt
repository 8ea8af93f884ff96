-- ===== src/Worker.antt =====
-- worker.cpp: the gRPC service of a worker and the heartbeat of its loop. A simulated task is its
-- pause and its text; the numbers of rand() are given from outside.
pub mod Load
pub mod Durations
pub mod Start
pub mod Arguments
mod Tests
use my_taskflow_system.Common.{
  ℕ, ◌+◌, ◌*◌, ◌%◌, ◌∷◌, ◌++◌, Bool, true, false, [], Text, codes, if◌then◌else◌,
}
use my_taskflow_system.Common.Int.{ℤ, pos, negsuc, leb_ℤ, eq_ℤ, increment, decrement}
use my_taskflow_system.Common.Decimal.{to_string}
use my_taskflow_system.Messages.{ExecuteTaskRequest, ExecuteTaskReply, HeartbeatRequest, PlainReply}
use my_taskflow_system.Redis.Server.{Server}
use my_taskflow_system.Redis.Client.{RedisClient, set_expiring}

-- WorkerServiceImpl, less its configuration.
pub record WorkerService : Type 0 where
  pub current_load : ℤ

-- The constructor.
abbrev pub new_service : WorkerService
new_service = record { current_load = pos 0 }

-- The seconds that a task sleeps and what it returns.
pub record Work : Type 0 where
  pub duration : ℤ
  pub output : Text

-- What rand() gives to one task.
pub record Rolls : Type 0 where
  pub first : ℕ
  pub second : ℕ

-- A return, or an exception with its what().
pub data Attempt : Type 0 where
  finished : Work → Attempt
  failed : Text → Attempt

-- std::min(timeout, limit)
abbrev pub min_ℤ : ℤ → ℤ → ℤ
min_ℤ a b = if leb_ℤ a b then a else b

unfoldable pub simulate_order_dispatch : Rolls → Text → ℤ → Work
simulate_order_dispatch rolls order_data timeout = record {
  duration = min_ℤ timeout (pos 5);
  output =
      codes "Order dispatched successfully. Order: "
      ++ (order_data
          ++ (codes ". Driver assigned: D-" ++ to_string (pos (rolls.first % 1000 + 1))));
}

unfoldable pub simulate_personnel_schedule : Text → ℤ → Work
simulate_personnel_schedule personnel_data timeout = record {
  duration = min_ℤ timeout (pos 8);
  output =
      codes "Personnel scheduling completed. Personnel: "
      ++ (personnel_data ++ codes ". Schedule generated for next 7 days.");
}

unfoldable pub simulate_message_notify : Rolls → Text → ℤ → Work
simulate_message_notify rolls message_data timeout = record {
  duration = min_ℤ timeout (pos 2);
  output =
      codes "Message notification sent. Recipients: "
      ++ (to_string (pos (rolls.first % 500 + 50)) ++ codes ". Delivery rate: 98%");
}

-- The sign of the currency is two bytes of UTF-8.
unfoldable pub simulate_data_stats : Rolls → Text → ℤ → Work
simulate_data_stats rolls stats_data timeout = record {
  duration = min_ℤ timeout (pos 10);
  output =
      codes "Data statistics completed. Period: "
      ++ (stats_data
          ++ (codes ". Total orders: "
              ++ (to_string (pos (rolls.first % 10000 + 5000))
                  ++ (codes ". Total revenue: "
                      ++ 194 ∷ 165 ∷ to_string (pos (rolls.second % 1000000 + 100000))))));
}

unfoldable pub simulate_generic_task : Text → ℤ → Work
simulate_generic_task payload timeout = record {
  duration = min_ℤ timeout (pos 3);
  output = codes "Task completed. Processed data: " ++ payload;
}

unfoldable pub execute_task_internal : Rolls → ℤ → Text → ℤ → Work
unfolding simulate_order_dispatch simulate_personnel_schedule simulate_message_notify
    simulate_data_stats simulate_generic_task
execute_task_internal rolls task_type payload timeout =
    if eq_ℤ task_type (pos 0)
    then simulate_order_dispatch rolls payload timeout
    else if eq_ℤ task_type (pos 1)
    then simulate_personnel_schedule payload timeout
    else if eq_ℤ task_type (pos 2)
    then simulate_message_notify rolls payload timeout
    else if eq_ℤ task_type (pos 3)
    then simulate_data_stats rolls payload timeout
    else simulate_generic_task payload timeout

-- The reply of ExecuteTask after its try and catch.
unfoldable pub reply_of : Text → Attempt → ExecuteTaskReply
reply_of task_id (finished work) = record {
  success = true;
  task_id = task_id;
  result = work.output;
  error_message = [];
}
reply_of task_id (failed what) = record {
  success = false;
  task_id = task_id;
  result = [];
  error_message = what;
}

-- current_load_++ and current_load_--; handlers run at the same time, so each is a step.
unfoldable pub begin_task : WorkerService → WorkerService
begin_task w = record { current_load = increment w.current_load }

unfoldable pub end_task : WorkerService → WorkerService
end_task w = record { current_load = decrement w.current_load }

-- How far a handler of ExecuteTask is: before current_load_++, inside of the try, after the try and
-- its catch, and after current_load_--, with its reply.
pub data Stage : Type 0 where
  arrived : Stage
  working : Stage
  tried : Attempt → Stage
  replied : ExecuteTaskReply → Stage

-- The next step of the handler of a request; `attempt` is what executeTaskInternal comes to.
unfoldable pub advance :
    ExecuteTaskRequest → Attempt → Stage → WorkerService → Stage × WorkerService
unfolding reply_of begin_task end_task
advance request attempt arrived w = (working, begin_task w)
advance request attempt working w = (tried attempt, w)
advance request attempt (tried a) w = (replied (reply_of request.task_id a), end_task w)
advance request attempt (replied r) w = (replied r, w)

-- ExecuteTask from its beginning to its end; no simulated task throws.
unfoldable pub execute_task :
    Rolls → ExecuteTaskRequest → WorkerService → ExecuteTaskReply × WorkerService
unfolding execute_task_internal reply_of begin_task end_task
execute_task rolls request w =
    let work = execute_task_internal rolls request.type request.payload request.timeout_seconds in
    (reply_of request.task_id (finished work), end_task (begin_task w))

unfoldable pub heartbeat : HeartbeatRequest → PlainReply
heartbeat request = record { success = true; message = codes "OK" }

abbrev pub worker_name : ℤ → Text
worker_name id = codes "worker-" ++ to_string id

-- x * 2, of an int that does not overflow.
abbrev pub twice : ℤ → ℤ
twice (pos n) = pos (n * 2)
twice (negsuc n) = negsuc (n * 2 + 1)

-- One round of heartbeatLoop after its sleep; the clock is in seconds.
module _ (S : Server) where
  unfoldable pub heartbeat_round : RedisClient → ℤ → ℤ → ℕ → S.State → Bool × S.State
  unfolding set_expiring
  heartbeat_round c id heartbeat_interval now =
      set_expiring S c (codes "worker:heartbeat:" ++ worker_name id) (to_string (pos now))
        (twice heartbeat_interval)
