-- ===== src/Dispatcher/Connections.antt =====
-- What the methods of the dispatcher do with the connections of the pool.
use my_taskflow_system.Common.{[], ℕ, Bool, true, false, Text, codes}
use my_taskflow_system.Common.Int.{ℤ, pos}
use my_taskflow_system.Common.Exec.{Exec}
use my_taskflow_system.Redis.Server.{Server}
use my_taskflow_system.Redis.Tasks.{TaskInfo}
use my_taskflow_system.Redis.Claims.{IsValid}
use my_taskflow_system.Dispatcher.Model.{TaskRequest, TaskResult, System, Surroundings, no_task}
use my_taskflow_system.Dispatcher.Methods.{
  submit_task, pop_next_task, assign_task_to_worker, complete_task, fail_task, retry_task,
  get_task_retry_count, get_task_status, get_task_info, get_queue_size, submit_on, pop_on,
  assign_on, complete_on, fail_on, retry_on, retry_count_on, status_on, info_on, size_on,
}
use my_taskflow_system.Dispatcher.Closing.{
  Returned, assign_on-AfterClose, complete_on-AfterClose, fail_on-AfterClose, info_on-AfterClose,
  pop_on-AfterClose, retry_count_on-AfterClose, retry_on-AfterClose, size_on-AfterClose,
  status_on-AfterClose, submit_on-AfterClose, with_connection-Returned,
}

-- The methods of the dispatcher, but getTotalQueueSize, which is three calls of getQueueSize.
pub data Call : Type 0 where
  submits : TaskRequest → Call
  pops : Call
  assigns : Text → Text → Call
  completes : Text → TaskResult → Call
  fails : Text → Text → Call
  retries counts_retries asks_status asks_info : Text → Call
  asks_size : ℤ → Call

-- Whether the method still has its connection where it may throw; getTaskStatus throws after it has
-- given it back.
abbrev pub keeps_it : Call → Bool
keeps_it (asks_status _) = false
keeps_it _ = true

abbrev pub Answer : Call → Type 0
Answer (submits _) = Bool
Answer pops = Text
Answer (assigns _ _) = Bool
Answer (completes _ _) = Bool
Answer (fails _ _) = Bool
Answer (retries _) = Bool
Answer (counts_retries _) = ℤ
Answer (asks_status _) = Text
Answer (asks_info _) = TaskInfo
Answer (asks_size _) = ℕ

module _ (S : Server) where
  open S use {State}

  unfoldable pub perform : (k : Call) → Surroundings → Exec (System State) (Answer k)
  perform (submits t) o = submit_task S o t
  perform pops o = pop_next_task S o
  perform (assigns task_id worker_id) o = assign_task_to_worker S o task_id worker_id
  perform (completes task_id result) o = complete_task S o task_id result
  perform (fails task_id error) o = fail_task S o task_id error
  perform (retries task_id) o = retry_task S o task_id
  perform (counts_retries task_id) o = get_task_retry_count S o task_id
  perform (asks_status task_id) o = get_task_status S o task_id
  perform (asks_info task_id) o = get_task_info S o task_id
  perform (asks_size priority) o = get_queue_size S o priority

  -- From a valid pool, every method of the dispatcher that returns leaves each connection with whom
  -- it was, and a free connected client if there was one. One that ends by an exception has taken one connection that was free, for good, and no
  -- other changes hands; only getTaskStatus has given it back by then. The pool stays valid.
  pub perform-Returned :
      (k : Call) (o : Surroundings) (s : System State)
      → IsValid s.pool
      → Returned (keeps_it k) s.pool (perform k o s)
  unfolding perform submit_task pop_next_task assign_task_to_worker complete_task fail_task
      retry_task get_task_retry_count get_task_status get_task_info get_queue_size
  perform-Returned (submits t) o s v =
      with_connection-Returned S true o false (submit_on S o t) s (submit_on-AfterClose S o t) v
  perform-Returned pops o s v =
      with_connection-Returned S true o [] (pop_on S o) s (pop_on-AfterClose S o) v
  perform-Returned (assigns i w) o s v =
      with_connection-Returned S true o false (assign_on S o i w) s (assign_on-AfterClose S o i w) v
  perform-Returned (completes i r) o s v =
      with_connection-Returned S true o false (complete_on S o i r) s
        (complete_on-AfterClose S o i r) v
  perform-Returned (fails i e) o s v =
      with_connection-Returned S true o false (fail_on S o i e) s (fail_on-AfterClose S o i e) v
  perform-Returned (retries i) o s v =
      with_connection-Returned S true o false (retry_on S o i) s (retry_on-AfterClose S o i) v
  perform-Returned (counts_retries i) o s v =
      with_connection-Returned S true o (pos 0) (retry_count_on S o i) s
        (retry_count_on-AfterClose S o i) v
  perform-Returned (asks_status i) o s v =
      with_connection-Returned S false o (codes "unknown") (status_on S o i) s
        (status_on-AfterClose S o i) v
  perform-Returned (asks_info i) o s v =
      with_connection-Returned S true o no_task (info_on S o i) s (info_on-AfterClose S o i) v
  perform-Returned (asks_size p) o s v =
      with_connection-Returned S true o 0 (size_on S o p) s (size_on-AfterClose S o p) v
