-- ===== src/Scheduler/Journey.antt =====
-- A task from SubmitTask to the GetTaskStatus that asks for it.
use my_taskflow_system.Common.{
  ℕ, ◌≡◌, refl, ap, ◌∙◌, true, false, some, List, Text, is_empty, codes,
}
use my_taskflow_system.Common.Maps.{Map}
use my_taskflow_system.Common.Exec.{ok, bind_ok}
use my_taskflow_system.Common.Decimal.{to_string, c_str-to_string, to_string_not_empty}
use my_taskflow_system.Messages.{SubmitTaskRequest}
use my_taskflow_system.Snowflake.{Snowflake, next_id}
use my_taskflow_system.Snowflake
use my_taskflow_system.Redis.Server.{Server}
use my_taskflow_system.Redis.Tasks.{TaskInfo, Memory, task_key, get_task}
use my_taskflow_system.Redis.Laws.{RedisLaws, as_hash}
use my_taskflow_system.Redis.Pool.{Shared, RedisPool, get_connection}
use my_taskflow_system.Redis.Claims.{IsValid}
use my_taskflow_system.Redis.RoundTrip.{IsTask}
use my_taskflow_system.Redis.Lists.{Queues, Holds, push_spec}
use my_taskflow_system.Dispatcher.Model.{System, Surroundings, submitted, give_back, tries}
use my_taskflow_system.Dispatcher.Methods.{submit_task, get_task_info, info_on}
use my_taskflow_system.Dispatcher.Submission.{submit_task-queued, with_connection-found, leased_up}
use my_taskflow_system.Dispatcher.Connections.{perform, submits, perform-Returned}
use my_taskflow_system.Redis.Client.{RedisClient, request, hash_get_all}
use my_taskflow_system.Scheduler.{
  Scheduler, submission, task_request, task_message, as_int64, submit_task_with, submit_task_rpc,
  get_task_status_rpc,
}

module _ (S : Server) (laws : RedisLaws S) where
  open S use {State}

  get_task_info-found :
      (o : Surroundings) (s : System State) (c : Shared) (p : RedisPool) (id : Text) (t : TaskInfo)
      → get_connection o.attempts s.pool ≡ (some c, p)
      → (get_task S c.client o.memory id s.redis).0 ≡ ok t
      → (get_task_info S o id s).0 ≡ ok t
  unfolding get_task_info info_on give_back tries
  get_task_info-found o s c p id t e h =
      rw (with_connection-found S laws o _ (info_on S o id) s c p e, h) refl

  pub get_task-client :
      (c d : RedisClient) (m : Memory) (id : Text) (s : State)
      → c.connected ≡ true
      → d.connected ≡ true
      → get_task S c m id s ≡ get_task S d m id s
  unfolding get_task hash_get_all request
  get_task-client c d m id s up up' = rw (up, up') refl

  submit_task_rpc-id :
      (o : Surroundings) (readings rest : List ℕ) (request : SubmitTaskRequest)
      (s : Scheduler State) (n : ℕ) (ids : Snowflake)
      → let id = to_string (as_int64 n) in
        let done = submit_task S o (task_request id o.clock.system request) s.system in
        next_id readings s.ids ≡ (Snowflake.id n, ids, rest)
        → submit_task_rpc S o readings request s
          ≡ (submission id done.0, record { system = done.1; ids = ids })
  unfolding submit_task_rpc submit_task_with
  submit_task_rpc-id o readings rest request s n ids next = rw next refl

  get_task_status_rpc-found :
      (o : Surroundings) (id : Text) (t : TaskInfo) (s : System State)
      → is_empty t.id ≡ false
      → (get_task_info S o id s).0 ≡ ok t
      → (get_task_status_rpc S o id s).0
        ≡ ok (record { success = true; task = task_message t; message = codes "Task found" })
  unfolding get_task_status_rpc
  get_task_status_rpc-found o id t s full h =
      ap (λ x. x.0) (bind_ok (get_task_info S o id s) t _ h) ∙ rw full refl

  -- A task that SubmitTask has taken is found by GetTaskStatus: if nextId gives an id and the valid
  -- pool has a connection for each of the two calls, SubmitTask replies with the id in decimal, the
  -- id is the last of the queue of the priority that was asked for, and GetTaskStatus of that id
  -- replies with the task as it was asked for, pending and not retried, its other two times those
  -- that were in memory. The numbers are in the range of their types, the key of the task holds
  -- nothing but a hash before, and the three keys hold the queues.
  pub submit_task_rpc-status :
      (o later : Surroundings) (readings rest : List ℕ) (request : SubmitTaskRequest)
      (s : Scheduler State) (n : ℕ) (ids : Snowflake) (c d : Shared) (p r : RedisPool) (q : Queues)
      (m : Map Text)
      → let id = to_string (as_int64 n) in
        let info = submitted o.memory (task_request id o.clock.system request) in
        let after = (submit_task_rpc S o readings request s).1.system in
        next_id readings s.ids ≡ (Snowflake.id n, ids, rest)
        → IsValid s.system.pool
        → get_connection o.attempts s.system.pool ≡ (some c, p)
        → get_connection later.attempts after.pool ≡ (some d, r)
        → IsTask info
        → as_hash (laws.view s.system.redis (task_key id)) ≡ some m
        → Holds S laws s.system.redis q
        → ((submit_task_rpc S o readings request s).0 ≡ submission id (ok true))
          × Holds S laws after.redis (push_spec request.priority id q)
          × ((get_task_status_rpc S later id after).0
              ≡ ok (record {
                success = true;
                task = task_message info;
                message = codes "Task found";
              }))
  unfolding submit_task perform
  submit_task_rpc-status o later readings rest req s n ids c d p r q m next v e e' it h k =
      let id = to_string (as_int64 n) in
      let task = task_request id o.clock.system req in
      let info = submitted o.memory task in
      let same = submit_task_rpc-id o readings rest req s n ids next in
      let queued =
        submit_task-queued S laws o task s.system c p q m later.memory v e it
          (c_str-to_string (as_int64 n)) h k in
      let done = (submit_task S o task s.system).1 in
      let pool_after : IsValid done.pool = (perform-Returned S (submits task) o s.system v).valid in
      let e'' : get_connection later.attempts done.pool ≡ (some d, r) = rw same at e' in
      let up = leased_up S laws o s.system c p v e in
      let up' = leased_up S laws later done d r pool_after e'' in
      let read =
        ap (λ x. x.0) (get_task-client d.client c.client later.memory id done.redis up' up)
        ∙ queued.2 in
      let found = get_task_info-found later done d r id info e'' read in
      rw same (
        ap (submission id) queued.0,
        queued.1,
        get_task_status_rpc-found later id info done (to_string_not_empty (as_int64 n)) found,
      )
