-- ===== src/Redis/Tasks.antt =====
-- common/redis_client.cpp, getTask to getWorkerLoad: what the client keeps in Redis.
use my_taskflow_system.Common.{
  ℕ, ◌-◌, ◌%◌, ◌^◌, Bool, ◌||◌, none, some, [], ◌∷◌, ◌++◌, Text, codes, is_empty, ltb,
  if◌then◌else◌,
}
use my_taskflow_system.Common.Int.{ℤ, pos, negsuc, ltb_ℤ, eq_ℤ, increment}
use my_taskflow_system.Common.Maps.{Map, find, put}
use my_taskflow_system.Common.Exec.{Exec, Result, ok, bind, ◌>>=◌, pure, lift}
use my_taskflow_system.Common.Decimal.{to_string, stoi, stoll}
use my_taskflow_system.Redis.Server.{Server}
use my_taskflow_system.Redis.Client.{
  RedisClient, hash_get_all, hash_set_all, hash_set, hash_get, push_right, pop_left, increment_key,
  increment_by, get_text,
}

pub record TaskInfo : Type 0 where
  pub id : Text
  pub type : ℤ
  pub priority : ℤ
  pub payload : Text
  pub created_at : ℤ
  pub started_at : ℤ
  pub finished_at : ℤ
  pub status : ℤ
  pub retry_count : ℤ
  pub error_message : Text
  pub result : Text

-- What the numbers of a `TaskInfo task;` hold before they are written: whatever was in memory.
pub record Memory : Type 0 where
  pub type : ℤ
  pub priority : ℤ
  pub created_at : ℤ
  pub started_at : ℤ
  pub finished_at : ℤ
  pub status : ℤ
  pub retry_count : ℤ

-- TaskInfo task; task.id = task_id;
abbrev pub unset_task : Memory → Text → TaskInfo
unset_task m task_id = record {
  id = task_id;
  type = m.type;
  priority = m.priority;
  payload = [];
  created_at = m.created_at;
  started_at = m.started_at;
  finished_at = m.finished_at;
  status = m.status;
  retry_count = m.retry_count;
  error_message = [];
  result = [];
}

-- The conversion of an int64_t to an int, modulo 2 ^ 32.
abbrev pub to_int : ℤ → ℤ
to_int (pos n) = let w = n % 2 ^ 32 in if ltb w (2 ^ 31) then pos w else negsuc (2 ^ 32 - w - 1)
to_int (negsuc n) = let w = n % 2 ^ 32 in if ltb w (2 ^ 31) then negsuc w else pos (2 ^ 32 - w - 1)

abbrev pub task_key : Text → Text
task_key task_id = codes "task:" ++ task_id

abbrev pub load_key : Text → Text
load_key worker_id = codes "worker:load:" ++ worker_id

-- The lambda getInt.
unfoldable pub get_int : Map Text → Text → Result ℤ
get_int fields name = elim (find name fields) [ none ↦ ok (pos 0) | some v ↦ stoll v ]

-- fields.count(name) ? fields[name] : ""
unfoldable pub get_field : Map Text → Text → Text
get_field fields name = elim (find name fields) [ none ↦ [] | some v ↦ v ]

-- The assignments of getTask once fields are there.
unfoldable pub parse_task : {S : Type 0} → Text → Map Text → Exec S TaskInfo
unfolding get_int get_field
parse_task task_id fields = do
  type ← lift (get_int fields (codes "type"))
  priority ← lift (get_int fields (codes "priority"))
  created_at ← lift (get_int fields (codes "created_at"))
  started_at ← lift (get_int fields (codes "started_at"))
  finished_at ← lift (get_int fields (codes "finished_at"))
  status ← lift (get_int fields (codes "status"))
  retry_count ← lift (get_int fields (codes "retry_count"))
  pure (record {
    id = task_id;
    type = to_int type;
    priority = to_int priority;
    payload = get_field fields (codes "data");
    created_at = created_at;
    started_at = started_at;
    finished_at = finished_at;
    status = to_int status;
    retry_count = to_int retry_count;
    error_message = get_field fields (codes "error_message");
    result = get_field fields (codes "result");
  })

unfoldable pub read_fields : {S : Type 0} → Memory → Text → Map Text → Exec S TaskInfo
unfolding parse_task
read_fields m task_id [] = pure (unset_task m task_id)
read_fields m task_id (f ∷ fs) = parse_task task_id (f ∷ fs)

-- The std::map of saveTask.
unfoldable pub task_fields : TaskInfo → Map Text
task_fields t = put (codes "type") (to_string t.type) (
    put (codes "priority") (to_string t.priority) (
      put (codes "data") t.payload (
        put (codes "created_at") (to_string t.created_at) (
          put (codes "started_at") (to_string t.started_at) (
            put (codes "finished_at") (to_string t.finished_at) (
              put (codes "status") (to_string t.status) (
                put (codes "retry_count") (to_string t.retry_count) (
                  put (codes "error_message") t.error_message
                    (put (codes "result") t.result [])))))))))

-- The queue of a priority: the `switch` of pushToPriorityQueue.
unfoldable pub queue_of : ℤ → Text
queue_of priority =
    if eq_ℤ priority (pos 2)
    then codes "queue:high"
    else if eq_ℤ priority (pos 1)
    then codes "queue:medium"
    else codes "queue:low"

module _ (S : Server) (c : RedisClient) where
  open S use {State}

  unfoldable pub get_task : Memory → Text → Exec State TaskInfo
  unfolding read_fields
  get_task m task_id s =
      let (fields, s') = hash_get_all S c (task_key task_id) s in read_fields m task_id fields s'

  unfoldable pub save_task : TaskInfo → State → Bool × State
  unfolding task_fields
  save_task t = hash_set_all S c (task_key t.id) (task_fields t)

  -- The writes of updateTaskStatus one after the other; `now` is the clock in milliseconds.
  unfoldable pub update_task_status : ℕ → Text → ℤ → Text → State → State
  update_task_status now task_id status error_msg s =
      let key = task_key task_id in
      let s1 = (hash_set S c key (codes "status") (to_string status) s).1 in
      let s2 =
        if is_empty error_msg
        then s1
        else (hash_set S c key (codes "error_message") error_msg s1).1 in
      if eq_ℤ status (pos 2) || eq_ℤ status (pos 3)
      then (hash_set S c key (codes "finished_at") (to_string (pos now)) s2).1
      else s2

  -- retry + 1 stays in the range of int for any count that the code writes.
  unfoldable pub increment_task_retry : Text → Exec State Bool
  increment_task_retry task_id s =
      let key = task_key task_id in
      let (current, s1) = hash_get S c key (codes "retry_count") s in
      bind (if is_empty current then ok (pos 0) else stoi current, s1)
        λ retry s2.
          let (done, s3) =
            hash_set S c key (codes "retry_count") (to_string (increment retry)) s2 in
          (ok done, s3)

  unfoldable pub push_to_priority_queue : ℤ → Text → State → Bool × State
  unfolding queue_of
  push_to_priority_queue priority task_id = push_right S c (queue_of priority) task_id

  unfoldable pub pop_from_priority_queue : State → Text × State
  pop_from_priority_queue s =
      let (high, s1) = pop_left S c (codes "queue:high") s in
      let after_high =
        let (medium, s2) = pop_left S c (codes "queue:medium") s1 in
        if is_empty medium then pop_left S c (codes "queue:low") s2 else (medium, s2) in
      if is_empty high then after_high else (high, s1)

  unfoldable pub increment_worker_load : Text → State → State
  increment_worker_load worker_id s = (increment_key S c (load_key worker_id) s).1

  unfoldable pub decrement_worker_load : Text → Exec State (Unit {0})
  decrement_worker_load worker_id s =
      let (load, s1) = get_text S c (load_key worker_id) s in
      bind (stoll load, s1)
        λ n s2. (
          ok tt,
          if ltb_ℤ (pos 0) n then (increment_by S c (load_key worker_id) (negsuc 0) s2).1 else s2,
        )

  unfoldable pub get_worker_load : Text → Exec State ℤ
  get_worker_load worker_id s =
      let (load, s1) = get_text S c (load_key worker_id) s in
      (if is_empty load then ok (pos 0) else stoi load, s1)
