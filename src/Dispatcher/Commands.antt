-- ===== src/Dispatcher/Commands.antt =====
-- A call of submitTask and a call of popNextTask that nothing interrupts, as steps of
-- Dispatcher/Interleaving.antt.
use my_taskflow_system.Common.{
  ◌≡◌, true, false, some, [], Text, c_str, codes, is_empty, Bool-cases, inl, inr,
}
use my_taskflow_system.Common.Maps.{Map}
use my_taskflow_system.Redis.Server.{Server}
use my_taskflow_system.Redis.Client.{RedisClient, pop_left}
use my_taskflow_system.Redis.Tasks.{
  task_key, save_task, push_to_priority_queue, pop_from_priority_queue,
}
use my_taskflow_system.Redis.Laws.{RedisLaws, as_hash}
use my_taskflow_system.Redis.Pool.{Shared, RedisPool, get_connection}
use my_taskflow_system.Redis.Claims.{IsValid}
use my_taskflow_system.Redis.RoundTrip.{IsTask, save_task-view}
use my_taskflow_system.Redis.Lists.{is_high, is_medium, is_low}
use my_taskflow_system.Dispatcher.Model.{
  TaskRequest, System, Surroundings, submitted, give_back, calls,
}
use my_taskflow_system.Dispatcher.Methods.{submit_on, submit_task, pop_on, pop_next_task}
use my_taskflow_system.Dispatcher.Submission.{with_connection-found, leased_up}
use my_taskflow_system.Dispatcher.Interleaving.{
  Progress, Steps, saves, pushes, pops, none_left, first,
}

-- The server between calls.
abbrev pub between : {State : Type 0} → State → Progress State
between s = record { redis = s; saved = [] }

module _ (S : Server) (laws : RedisLaws S) where
  open S use {State}

  -- submitTask on a connection of a valid pool saves the task and then pushes its id.
  pub submit_task-Steps :
      (o : Surroundings) (t : TaskRequest) (s : System State) (c : Shared) (p : RedisPool)
      (m : Map Text)
      → IsValid s.pool
      → get_connection o.attempts s.pool ≡ (some c, p)
      → IsTask (submitted o.memory t)
      → c_str t.id ≡ t.id
      → as_hash (laws.view s.redis (task_key t.id)) ≡ some m
      → Steps S (between s.redis) (between (submit_task S o t s).1.redis)
  unfolding submit_task submit_on give_back calls
  submit_task-Steps o t s c p m v e it plain h =
      let up = leased_up S laws o s c p v e in
      let info = submitted o.memory t in
      let saved = save_task-view S laws c.client up info s.redis m h in
      let s1 = (save_task S c.client info s.redis).1 in
      let found = with_connection-found S laws o false (submit_on S o t) s c p e in
      let rest = first (pushes c.client info [] [] s1 up) none_left in
      let all = first (saves c.client info (between s.redis) up it plain) rest in
      elim (Bool-cases (push_to_priority_queue S c.client t.priority t.id s1).0) [
        | inl done ↦ rw (found, saved.0, done) all
        | inr refused ↦ rw (found, saved.0, refused) all
      ]

  pop_from_priority_queue-Steps :
      (c : RedisClient) (s : State)
      → c.connected ≡ true
      → Steps S (between s) (between (pop_from_priority_queue S c s).1)
  unfolding pop_from_priority_queue
  pop_from_priority_queue-Steps c s up =
      let high = pop_left S c (codes "queue:high") s in
      let medium = pop_left S c (codes "queue:medium") high.1 in
      let one : Steps S (between s) (between high.1) =
        first (pops c is_high (between s) up) none_left in
      let two : Steps S (between s) (between medium.1) =
        first (pops c is_high (between s) up)
          (first (pops c is_medium (between high.1) up) none_left) in
      let three : Steps S (between s) (between (pop_left S c (codes "queue:low") medium.1).1) =
        first (pops c is_high (between s) up) (
          first (pops c is_medium (between high.1) up)
            (first (pops c is_low (between medium.1) up) none_left)) in
      elim (Bool-cases (is_empty high.0)) [
        | inl none ↦ elim (Bool-cases (is_empty medium.0)) [
          | inl none_too ↦ rw (none, none_too) three
          | inr some_id ↦ rw (none, some_id) two
        ]
        | inr some_id ↦ rw some_id one
      ]

  -- popNextTask on a connection of a valid pool is a pop of one, two or three queues.
  pub pop_next_task-Steps :
      (o : Surroundings) (s : System State) (c : Shared) (p : RedisPool)
      → IsValid s.pool
      → get_connection o.attempts s.pool ≡ (some c, p)
      → Steps S (between s.redis) (between (pop_next_task S o s).1.redis)
  unfolding pop_next_task pop_on give_back calls
  pop_next_task-Steps o s c p v e =
      let up = leased_up S laws o s c p v e in
      rw (with_connection-found S laws o [] (pop_on S o) s c p e)
        (pop_from_priority_queue-Steps c.client s.redis up)
