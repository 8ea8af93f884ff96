-- ===== src/Dispatcher/Effects.antt =====
-- What submitTask, getTaskInfo and assignTaskToWorker leave in Redis and in the load balancer, and
-- what they answer.
use my_taskflow_system.Redis.Tasks.{push_to_priority_queue, save_task}
use my_taskflow_system.Common.{
  subst, sym, ◌-◌, ℕ, ◌+◌, ◌<◌, ◌^◌, ◌≡◌, refl, ap, ◌∙◌, true, false, some, Text, c_str, codes,
  arith, is_empty,
}
use my_taskflow_system.Common.Int.{pos}
use my_taskflow_system.Common.Maps.{Map, put}
use my_taskflow_system.Common.Exec.{ok}
use my_taskflow_system.Common.Decimal.{to_string}
use my_taskflow_system.Redis.Server.{Server}
use my_taskflow_system.Redis.Client.{RedisClient, hash_set}
use my_taskflow_system.Redis.Tasks.{
  task_fields, TaskInfo, task_key, get_task, increment_worker_load, decrement_worker_load,
  get_worker_load,
}
use my_taskflow_system.Redis.Laws.{enter, RedisLaws}
use my_taskflow_system.Redis.Pool.{Shared, RedisPool, get_connection}
use my_taskflow_system.Redis.Claims.{IsValid}
use my_taskflow_system.Redis.RoundTrip.{IsTask}
use my_taskflow_system.Redis.RoundTrip
use my_taskflow_system.Redis.Status.{to_string-c_str}
use my_taskflow_system.Redis.Facts.{Facts, Stored}
use my_taskflow_system.Redis.Lists.{push_spec}
use my_taskflow_system.Redis.Carry.{
  save_task-Stored, push_to_priority_queue-Stored, push_to_priority_queue-Stored, hash_set-Stored,
  get_task-Stored, increment_worker_load-Stored, decrement_worker_load-Stored,
  get_worker_load-Stored,
}
use my_taskflow_system.Balancer.Model.{update_worker_load}
use my_taskflow_system.Dispatcher.Model.{
  submitted, no_task, TaskRequest, System, Surroundings, give_back, calls, tries, does, balances,
}
use my_taskflow_system.Dispatcher.Methods.{
  info_on, submit_on, get_task_info, submit_task, assign_on, assign_task_to_worker,
}
use my_taskflow_system.Dispatcher.Submission.{with_connection-found, leased_up}

-- The fields of a task after its assignment.
abbrev pub assigned : ℕ → Text → Map Text → Map Text
assigned now worker_id m =
    put (codes "started_at") (to_string (pos now))
      (put (codes "worker_id") worker_id (put (codes "status") (codes "1") m))

module _ (S : Server) (laws : RedisLaws S) (c : RedisClient) (up : c.connected ≡ true)
    (task_id worker_id : Text) (task_plain : c_str task_id ≡ task_id)
    (worker_plain : c_str worker_id ≡ worker_id) where
  open S use {State}

  -- The two calls that releasing a load makes.
  pub released :
      (f : Facts) (s : State)
      → f.load < 2 ^ 31
      → Stored S laws task_id worker_id f s
      → let down = decrement_worker_load S c worker_id s in
        let read = get_worker_load S c worker_id down.1 in
        (down.0 ≡ ok tt)
        × (read.0 ≡ ok (pos (f.load - 1)))
        × Stored S laws task_id worker_id (record f { load = f.load - 1 }) read.1
  released f s lt h =
      let down =
        decrement_worker_load-Stored S laws c up task_id worker_id task_plain worker_plain f s
          (omega arith) h in
      let read =
        get_worker_load-Stored S laws c up task_id worker_id task_plain worker_plain
          (record f { load = f.load - 1 }) (decrement_worker_load S c worker_id s).1 (omega arith)
          down.1 in
      (down.0, read.0, read.1)

module _ (S : Server) (laws : RedisLaws S) (o : Surroundings) (s : System S.State) (c : Shared)
    (p : RedisPool) (v : IsValid s.pool) (e : get_connection o.attempts s.pool ≡ (some c, p))
    (task_id worker_id : Text) (task_plain : c_str task_id ≡ task_id)
    (worker_plain : c_str worker_id ≡ worker_id) (f : Facts)
    (h : Stored S laws task_id worker_id f s.redis) where
  up : c.client.connected ≡ true
  up = leased_up S laws o s c p v e

  pub submit_task-Stored :
      (t : TaskRequest)
      → t.id ≡ task_id
      → let r = submit_task S o t s in
        (r.0 ≡ ok true)
        × Stored S laws task_id worker_id
            (record f {
              fields = enter (task_fields (submitted o.memory t)) f.fields;
              queues = push_spec t.priority task_id f.queues;
            })
            r.1.redis
        × (r.1.balancer ≡ s.balancer)
  unfolding submit_task submit_on give_back calls
  submit_task-Stored t same =
      let client = c.client in
      let info = submitted o.memory t in
      let saved =
        save_task-Stored S laws client up task_id worker_id task_plain worker_plain info f s.redis
          same h in
      let s1 = (save_task S client info s.redis).1 in
      let f1 = record f { fields = enter (task_fields info) f.fields } in
      let f2 = record f1 { queues = push_spec t.priority task_id f.queues } in
      let pushed =
        subst
          (λ i.
            ((push_to_priority_queue S client t.priority i s1).0 ≡ true)
            × Stored S laws task_id worker_id f2
                (push_to_priority_queue S client t.priority i s1).1)
          (sym same)
          (push_to_priority_queue-Stored S laws client up task_id worker_id task_plain worker_plain
            t.priority f1 s1 saved.1) in
      let found = with_connection-found S laws o false (submit_on S o t) s c p e in
      rw (found, saved.0, pushed.0) (refl, pushed.1, refl)

  pub get_task_info-Stored :
      (t : TaskInfo)
      → t.id ≡ task_id
      → IsTask t
      → RoundTrip.Holds f.fields t
      → (get_task_info S o task_id s).0 ≡ ok t
  unfolding get_task_info info_on give_back tries
  get_task_info-Stored t same it k =
      let g =
        get_task-Stored S laws c.client up task_id worker_id task_plain worker_plain o.memory t f
          s.redis same it k h in
      rw (with_connection-found S laws o no_task (info_on S o task_id) s c p e, g.0) refl

  pub assign_task_to_worker-Stored :
      (t : TaskInfo)
      → t.id ≡ task_id
      → is_empty task_id ≡ false
      → IsTask t
      → RoundTrip.Holds f.fields t
      → f.load + 1 < 2 ^ 31
      → let r = assign_task_to_worker S o task_id worker_id s in
        (r.0 ≡ ok true)
        × Stored S laws task_id worker_id
            (record f { fields = assigned o.clock.system worker_id f.fields; load = f.load + 1 })
            r.1.redis
        × (r.1.balancer ≡ update_worker_load worker_id (pos (f.load + 1)) s.balancer)
  unfolding assign_task_to_worker assign_on give_back calls tries does balances c_str
  assign_task_to_worker-Stored t same some_id it k lt =
      let client = c.client in
      let key = task_key task_id in
      let g =
        get_task-Stored S laws client up task_id worker_id task_plain worker_plain o.memory t f
          s.redis same it k h in
      let s1 = (get_task S client o.memory task_id s.redis).1 in
      let set = hash_set-Stored S laws client up task_id worker_id task_plain worker_plain in
      let h2 = set (codes "status") (codes "1") f s1 refl refl g.1 in
      let s2 = (hash_set S client key (codes "status") (codes "1") s1).1 in
      let f2 = record f { fields = put (codes "status") (codes "1") f.fields } in
      let h3 = set (codes "worker_id") worker_id f2 s2 refl worker_plain h2 in
      let s3 = (hash_set S client key (codes "worker_id") worker_id s2).1 in
      let f3 = record f { fields = put (codes "worker_id") worker_id f2.fields } in
      let now = to_string (pos o.clock.system) in
      let h4 = set (codes "started_at") now f3 s3 refl (to_string-c_str (pos o.clock.system)) h3 in
      let s4 = (hash_set S client key (codes "started_at") now s3).1 in
      let f4 = record f { fields = put (codes "started_at") now f3.fields } in
      let h5 =
        increment_worker_load-Stored S laws client up task_id worker_id task_plain worker_plain f4
          s4 (omega arith) h4 in
      let s5 = increment_worker_load S client worker_id s4 in
      let f5 = record f4 { load = f.load + 1 } in
      let h6 =
        get_worker_load-Stored S laws client up task_id worker_id task_plain worker_plain f5 s5 lt
          h5 in
      let named : is_empty t.id ≡ false = ap is_empty same ∙ some_id in
      rw
        (
          with_connection-found S laws o false (assign_on S o task_id worker_id) s c p e,
          g.0,
          named,
          h6.0,
        )
        (refl, h6.1, refl)
