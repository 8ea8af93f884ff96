-- ===== src/Dispatcher/Methods.antt =====
-- scheduler/task_dispatcher.cpp: the methods.
use my_taskflow_system.Common.{
  ℕ, ◌+◌, ◌^◌, ◌%◌, Bool, true, false, [], Text, codes, is_empty, if◌then◌else◌,
}
use my_taskflow_system.Common.Int.{ℤ, pos, leb_ℤ}
use my_taskflow_system.Common.Exec.{Exec, ◌>>=◌, ◌>>◌, pure}
use my_taskflow_system.Common.Decimal.{to_string}
use my_taskflow_system.Redis.Server.{Server}
use my_taskflow_system.Redis.Client.{hash_set, hash_get, set_expiring, list_length}
use my_taskflow_system.Redis.Tasks.{
  TaskInfo, task_key, queue_of, get_task, save_task, update_task_status, increment_task_retry,
  push_to_priority_queue, pop_from_priority_queue, increment_worker_load, decrement_worker_load,
  get_worker_load,
}
use my_taskflow_system.Redis.Pool.{Shared}
use my_taskflow_system.Balancer.Model.{update_worker_load, record_success_of, record_failure_of}
use my_taskflow_system.Dispatcher.Model.{
  Surroundings, System, TaskRequest, TaskResult, balances, calls, delay_seconds, does, give_back,
  no_task, retry_key, status_text, submitted, to_size, tries, with_connection,
}

module _ (S : Server) where
  open S use {State}

  -- The methods, each with what it does once it has a connection.
  unfoldable pub submit_on : Surroundings → TaskRequest → Shared → Exec (System State) Bool
  unfolding give_back calls
  submit_on o t c = do
    saved ← calls S (save_task S c.client (submitted o.memory t))
    if saved
        then (do
          pushed ← calls S (push_to_priority_queue S c.client t.priority t.id)
          if pushed then give_back S c true else give_back S c false)
        else give_back S c false

  unfoldable pub submit_task : Surroundings → TaskRequest → Exec (System State) Bool
  unfolding with_connection submit_on
  submit_task o t = with_connection S o false (submit_on o t)

  unfoldable pub pop_on : Surroundings → Shared → Exec (System State) Text
  unfolding give_back calls
  pop_on o c = do task_id ← calls S (pop_from_priority_queue S c.client); give_back S c task_id

  unfoldable pub pop_next_task : Surroundings → Exec (System State) Text
  unfolding with_connection pop_on
  pop_next_task o = with_connection S o [] (pop_on o)

  unfoldable pub assign_on : Surroundings → Text → Text → Shared → Exec (System State) Bool
  unfolding give_back calls tries does balances
  assign_on o task_id worker_id c = do
    task ← tries S (get_task S c.client o.memory task_id)
    if is_empty task.id then give_back S c false else (do
      calls S (hash_set S c.client (task_key task_id) (codes "status") (codes "1"))
      calls S (hash_set S c.client (task_key task_id) (codes "worker_id") worker_id)
      calls S (
          hash_set S c.client (task_key task_id) (codes "started_at")
            (to_string (pos o.clock.system)))
      does S (increment_worker_load S c.client worker_id)
      load ← tries S (get_worker_load S c.client worker_id)
      balances S (update_worker_load worker_id load)
      give_back S c true)

  unfoldable pub assign_task_to_worker : Surroundings → Text → Text → Exec (System State) Bool
  unfolding with_connection assign_on
  assign_task_to_worker o task_id worker_id =
      with_connection S o false (assign_on o task_id worker_id)

  -- decrementWorkerLoad and the updateWorkerLoad after it.
  unfoldable pub release_load : Shared → Text → Exec (System State) (Unit {0})
  unfolding tries balances
  release_load c worker_id = do
    tries S (decrement_worker_load S c.client worker_id)
    load ← tries S (get_worker_load S c.client worker_id)
    balances S (update_worker_load worker_id load)

  unfoldable pub complete_on : Surroundings → Text → TaskResult → Shared → Exec (System State) Bool
  unfolding give_back calls does balances release_load
  complete_on o task_id result c = do
    worker_id ← calls S (hash_get S c.client (task_key task_id) (codes "worker_id"))
    does S (update_task_status S c.client o.clock.system task_id (pos 2) [])
    calls S (hash_set S c.client (task_key task_id) (codes "result") result.result)
    if is_empty worker_id then give_back S c true else (do
      release_load c worker_id
      balances S (record_success_of worker_id)
      give_back S c true)

  unfoldable pub complete_task : Surroundings → Text → TaskResult → Exec (System State) Bool
  unfolding with_connection complete_on
  complete_task o task_id result = with_connection S o false (complete_on o task_id result)

  unfoldable pub fail_on : Surroundings → Text → Text → Shared → Exec (System State) Bool
  unfolding give_back calls does balances release_load
  fail_on o task_id error c = do
    worker_id ← calls S (hash_get S c.client (task_key task_id) (codes "worker_id"))
    does S (update_task_status S c.client o.clock.system task_id (pos 3) error)
    if is_empty worker_id then give_back S c true else (do
      release_load c worker_id
      balances S (record_failure_of o.clock.steady worker_id)
      give_back S c true)

  unfoldable pub fail_task : Surroundings → Text → Text → Exec (System State) Bool
  unfolding with_connection fail_on
  fail_task o task_id error = with_connection S o false (fail_on o task_id error)

  -- retryTask after its test of the count.
  unfoldable pub schedule_retry : Surroundings → Shared → Text → ℤ → Exec (System State) Bool
  unfolding give_back calls tries
  schedule_retry o c task_id count = do
    tries S (increment_task_retry S c.client task_id)
    task ← tries S (get_task S c.client o.second_memory task_id)
    let delay = delay_seconds o count
    calls S (set_expiring S c.client (retry_key delay task_id) task_id delay)
    calls S (push_to_priority_queue S c.client task.priority task_id)
    give_back S c true

  unfoldable pub retry_on : Surroundings → Text → Shared → Exec (System State) Bool
  unfolding give_back calls tries release_load schedule_retry
  retry_on o task_id c = do
    task ← tries S (get_task S c.client o.memory task_id)
    if leb_ℤ (pos 3) task.retry_count then give_back S c false else (do
      worker_id ← calls S (hash_get S c.client (task_key task_id) (codes "worker_id"))
      if is_empty worker_id
          then schedule_retry o c task_id task.retry_count
          else (release_load c worker_id >> schedule_retry o c task_id task.retry_count))

  unfoldable pub retry_task : Surroundings → Text → Exec (System State) Bool
  unfolding with_connection retry_on
  retry_task o task_id = with_connection S o false (retry_on o task_id)

  unfoldable pub retry_count_on : Surroundings → Text → Shared → Exec (System State) ℤ
  unfolding give_back tries
  retry_count_on o task_id c = do
    task ← tries S (get_task S c.client o.memory task_id)
    give_back S c task.retry_count

  unfoldable pub get_task_retry_count : Surroundings → Text → Exec (System State) ℤ
  unfolding with_connection retry_count_on
  get_task_retry_count o task_id = with_connection S o (pos 0) (retry_count_on o task_id)

  -- The number is read after the connection is back.
  unfoldable pub status_on : Surroundings → Text → Shared → Exec (System State) Text
  unfolding give_back calls
  status_on o task_id c = do
    status ← calls S (hash_get S c.client (task_key task_id) (codes "status"))
    give_back S c status
    λ s. (status_text status, s)

  unfoldable pub get_task_status : Surroundings → Text → Exec (System State) Text
  unfolding with_connection status_on
  get_task_status o task_id = with_connection S o (codes "unknown") (status_on o task_id)

  unfoldable pub info_on : Surroundings → Text → Shared → Exec (System State) TaskInfo
  unfolding give_back tries
  info_on o task_id c = do task ← tries S (get_task S c.client o.memory task_id); give_back S c task

  unfoldable pub get_task_info : Surroundings → Text → Exec (System State) TaskInfo
  unfolding with_connection info_on
  get_task_info o task_id = with_connection S o no_task (info_on o task_id)

  unfoldable pub size_on : Surroundings → ℤ → Shared → Exec (System State) ℕ
  unfolding give_back calls
  size_on o priority c = do
    size ← calls S (list_length S c.client (queue_of priority))
    give_back S c (to_size size)

  unfoldable pub get_queue_size : Surroundings → ℤ → Exec (System State) ℕ
  unfolding with_connection size_on
  get_queue_size o priority = with_connection S o 0 (size_on o priority)

  -- C++ leaves the order of the three calls open; here from left to right.
  unfoldable pub get_total_queue_size : Surroundings → Exec (System State) ℕ
  unfolding get_queue_size
  get_total_queue_size o = do
    high ← get_queue_size o (pos 2)
    medium ← get_queue_size o (pos 1)
    low ← get_queue_size o (pos 0)
    pure ((high + medium + low) % 2 ^ 64)
