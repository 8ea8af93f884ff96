-- ===== src/Scheduler.antt =====
-- scheduler.cpp: the gRPC services of the scheduler; Scheduler/Loops.antt has the bodies of its two
-- loops, Scheduler/Start.antt the parts of main that decide something. A handler runs from its
-- beginning to its end.
pub mod Loops
pub mod Start
pub mod Heartbeats
pub mod Dispatch
mod Assignment
pub mod Journey
pub mod Address
mod Tests
use my_taskflow_system.Common.{
  if◌then◌else◌, ℕ, ◌-◌, ◌^◌, ltb, Bool, true, false, List, [], map, Text, codes, is_empty,
}
use my_taskflow_system.Common.Int.{ℤ, pos, negsuc}
use my_taskflow_system.Common.Exec.{Exec, Result, Error, ok, throw, ◌>>=◌, pure}
use my_taskflow_system.Common.Decimal.{to_string}
use my_taskflow_system.Messages.{
  Task, unset_task, SubmitTaskRequest, SubmitTaskReply, TaskReply, ExecuteTaskRequest,
  ExecuteTaskReply, HeartbeatRequest, PlainReply, RegisterWorkerRequest, WorkerInfo,
}
use my_taskflow_system.Snowflake.{Snowflake, Outcome, next_id}
use my_taskflow_system.Snowflake
use my_taskflow_system.Redis.Server.{Server}
use my_taskflow_system.Redis.Tasks.{TaskInfo}
use my_taskflow_system.Balancer.Model.{WorkerNode, LoadBalancer, update_worker_load, get_workers}
use my_taskflow_system.Dispatcher.Model.{TaskRequest, System, Surroundings}
use my_taskflow_system.Dispatcher.Methods.{submit_task, get_task_info}

-- What SubmitTask works on.
pub record Scheduler (State : Type 0) : Type 0 where
  pub system : System State
  pub ids : Snowflake

-- What a call of SubmitTask comes to: a reply, the exception of nextId, another exception, or a wait
-- of nextId that the readings of the clock do not end.
pub data Submission : Type 0 where
  replied : SubmitTaskReply → Submission
  clock_moved_backwards : Submission
  threw : Error → Submission
  waiting : Submission

-- The int64_t of a bit pattern.
abbrev pub as_int64 : ℕ → ℤ
as_int64 n = if ltb n (2 ^ 63) then pos n else negsuc (2 ^ 64 - 1 - n)

-- TaskRequest task; with its assignments.
abbrev pub task_request : Text → ℕ → SubmitTaskRequest → TaskRequest
task_request task_id now request = record {
  id = task_id;
  type = request.type;
  priority = request.priority;
  payload = request.payload;
  created_at = pos now;
  retry_count = pos 0;
  max_retries = pos 3;
}

abbrev pub submission : Text → Result Bool → Submission
submission task_id (ok true) =
    replied
      (record { success = true; task_id = task_id; message = codes "Task submitted successfully" })
submission task_id (ok false) =
    replied (record { success = false; task_id = []; message = codes "Failed to submit task" })
submission task_id (throw e) = threw e

-- The message of a task, field by field.
abbrev pub task_message : TaskInfo → Task
task_message t = record {
  id = t.id;
  type = t.type;
  priority = t.priority;
  payload = t.payload;
  created_at = t.created_at;
  started_at = t.started_at;
  finished_at = t.finished_at;
  status = t.status;
  retry_count = t.retry_count;
  error_message = t.error_message;
  result = t.result;
}

abbrev pub status_reply : TaskInfo → TaskReply
status_reply t =
    if is_empty t.id
    then record { success = false; task = unset_task; message = codes "Task not found" }
    else record { success = true; task = task_message t; message = codes "Task found" }

abbrev pub worker_message : WorkerNode → WorkerInfo
worker_message w = record {
  worker_id = w.id;
  address = w.address;
  port = w.port;
  current_load = w.current_load;
  status = w.status;
  last_heartbeat = pos w.last_heartbeat;
}

unfoldable pub workers_reply : LoadBalancer → List WorkerInfo
unfolding get_workers
workers_reply lb = map worker_message (get_workers lb)

-- RegisterWorker only writes to the log.
unfoldable pub register_worker : RegisterWorkerRequest → PlainReply
register_worker request = record {
  success = true;
  message = codes "Worker registered successfully";
}

unfoldable pub execute_task : ExecuteTaskRequest → ExecuteTaskReply
execute_task request = record {
  success = true;
  task_id = request.task_id;
  result = codes "Task executed";
  error_message = [];
}

unfoldable pub heartbeat : HeartbeatRequest → LoadBalancer → PlainReply × LoadBalancer
unfolding update_worker_load
heartbeat request lb = (
  record { success = true; message = codes "Heartbeat received" },
  update_worker_load request.worker_id request.current_load lb,
)

module _ (S : Server) where
  open S use {State}

  unfoldable pub submit_task_with :
      Surroundings → SubmitTaskRequest → Outcome → System State → Submission × System State
  unfolding submit_task
  submit_task_with o request (Snowflake.id n) s =
      let task_id = to_string (as_int64 n) in
      let (done, s') = submit_task S o (task_request task_id o.clock.system request) s in
      (submission task_id done, s')
  submit_task_with o request Snowflake.clock_moved_backwards s = (clock_moved_backwards, s)
  submit_task_with o request Snowflake.waiting s = (waiting, s)

  -- SubmitTask.
  unfoldable pub submit_task_rpc :
      Surroundings → List ℕ → SubmitTaskRequest → Scheduler State → Submission × Scheduler State
  unfolding next_id submit_task_with
  submit_task_rpc o readings request s =
      let (outcome, ids, rest) = next_id readings s.ids in
      let (reply, system) = submit_task_with o request outcome s.system in
      (reply, record { system = system; ids = ids })

  unfoldable pub get_task_status_rpc : Surroundings → Text → Exec (System State) TaskReply
  unfolding get_task_info
  get_task_status_rpc o task_id = do task ← get_task_info S o task_id; pure (status_reply task)
