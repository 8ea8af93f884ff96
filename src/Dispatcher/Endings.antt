-- ===== src/Dispatcher/Endings.antt =====
-- What completeTask and failTask leave in Redis and in the load balancer.
use my_taskflow_system.Common.{
  if◌then◌else◌, [], Option, ◌-◌, ℕ, ◌<◌, ◌^◌, ◌≡◌, refl, true, false, some, Text, text_eq, c_str,
  codes, is_empty,
}
use my_taskflow_system.Common.Int.{pos}
use my_taskflow_system.Common.Maps.{find-put, Map, find, put}
use my_taskflow_system.Common.Exec.{ok}
use my_taskflow_system.Redis.Server.{Server}
use my_taskflow_system.Redis.Client.{hash_set, hash_get}
use my_taskflow_system.Redis.Tasks.{task_key, update_task_status}
use my_taskflow_system.Redis.Laws.{RedisLaws}
use my_taskflow_system.Redis.Pool.{Shared, RedisPool, get_connection}
use my_taskflow_system.Redis.Claims.{IsValid}
use my_taskflow_system.Redis.Status.{updated}
use my_taskflow_system.Redis.Facts.{Facts, Stored}
use my_taskflow_system.Redis.Carry.{hash_set-Stored, hash_get-Stored, update_task_status-Stored}
use my_taskflow_system.Balancer.Model.{update_worker_load, record_success_of, record_failure_of}
use my_taskflow_system.Dispatcher.Methods.{fail_on, fail_task, complete_on, complete_task}
use my_taskflow_system.Dispatcher.Model.{
  TaskResult, System, Surroundings, give_back, calls, tries, does, balances,
}
use my_taskflow_system.Dispatcher.Submission.{with_connection-found, leased_up}
use my_taskflow_system.Dispatcher.Effects.{released}

-- The fields of a task that has ended, with a result if it has completed and with an error if not.
abbrev pub completed : ℕ → Text → Map Text → Text → Option Text
completed now result m field =
    if text_eq (codes "result") field
    then some result
    else updated now (pos 2) [] field (find field m)

abbrev pub failed : ℕ → Text → Map Text → Text → Option Text
failed now error m field = updated now (pos 3) error field (find field m)

module _ (S : Server) (laws : RedisLaws S) (o : Surroundings) (s : System S.State) (c : Shared)
    (p : RedisPool) (v : IsValid s.pool) (e : get_connection o.attempts s.pool ≡ (some c, p))
    (task_id worker_id : Text) (task_plain : c_str task_id ≡ task_id)
    (worker_plain : c_str worker_id ≡ worker_id) (f : Facts)
    (h : Stored S laws task_id worker_id f s.redis) where
  up : c.client.connected ≡ true
  up = leased_up S laws o s c p v e

  -- completeTask, once the valid pool has a connection for it, of a task that the worker has: it
  -- returns true, the task has status success, the clock as finished_at and the result, and its
  -- other fields are as they were; one comes off the load of the worker in Redis and in the load
  -- balancer, whose breaker of the worker records a success, and the queues are as they were.
  pub complete_task-Stored :
      (result : TaskResult)
      → is_empty worker_id ≡ false
      → c_str result.result ≡ result.result
      → find (codes "worker_id") f.fields ≡ some worker_id
      → f.load < 2 ^ 31
      → let r = complete_task S o task_id result s in
        (r.0 ≡ ok true)
        × ((after : Map Text) × ((field : Text)
              → find field after ≡ completed o.clock.system result.result f.fields field)
            × Stored S laws task_id worker_id
                (record f { fields = after; load = f.load - 1 })
                r.1.redis)
        × (r.1.balancer
            ≡ record_success_of worker_id
                (update_worker_load worker_id (pos (f.load - 1)) s.balancer))
  unfolding complete_task complete_on give_back calls tries does balances c_str
  complete_task-Stored result named plain has lt =
      let client = c.client in
      let key = task_key task_id in
      let g =
        hash_get-Stored S laws client up task_id worker_id task_plain worker_plain
          (codes "worker_id") worker_id f s.redis refl has h in
      let s1 = (hash_get S client key (codes "worker_id") s.redis).1 in
      let (m2, finds, h2) =
        update_task_status-Stored S laws client up task_id worker_id task_plain worker_plain
          o.clock.system (pos 2) [] f s1 refl g.1 in
      let s2 = update_task_status S client o.clock.system task_id (pos 2) [] s1 in
      let f2 = record f { fields = m2 } in
      let h3 =
        hash_set-Stored S laws client up task_id worker_id task_plain worker_plain (codes "result")
          result.result f2 s2 refl plain h2 in
      let s3 = (hash_set S client key (codes "result") result.result s2).1 in
      let m3 = put (codes "result") result.result m2 in
      let f3 = record f { fields = m3 } in
      let r = released S laws client up task_id worker_id task_plain worker_plain f3 s3 lt h3 in
      rw
        (
          with_connection-found S laws o false (complete_on S o task_id result) s c p e,
          g.0,
          named,
          r.0,
          r.1,
        )
        (
          refl,
          (
            m3,
            λ field. rw (find-put (codes "result") field result.result m2, finds field) refl,
            r.2,
          ),
          refl,
        )

  -- failTask, once the valid pool has a connection for it, of a task that the worker has: it
  -- returns true, the task has status failed, the clock as finished_at and the error message unless
  -- that is empty, and its other fields are as they were; one comes off the load of the worker in
  -- Redis and in the load balancer, whose breaker of the worker records a failure, and the queues
  -- are as they were.
  pub fail_task-Stored :
      (error : Text)
      → is_empty worker_id ≡ false
      → c_str error ≡ error
      → find (codes "worker_id") f.fields ≡ some worker_id
      → f.load < 2 ^ 31
      → let r = fail_task S o task_id error s in
        (r.0 ≡ ok true)
        × ((after : Map Text) × ((field : Text)
              → find field after ≡ failed o.clock.system error f.fields field)
            × Stored S laws task_id worker_id
                (record f { fields = after; load = f.load - 1 })
                r.1.redis)
        × (r.1.balancer
            ≡ record_failure_of o.clock.steady worker_id
                (update_worker_load worker_id (pos (f.load - 1)) s.balancer))
  unfolding fail_task fail_on give_back calls tries does balances c_str
  fail_task-Stored error named plain has lt =
      let client = c.client in
      let key = task_key task_id in
      let g =
        hash_get-Stored S laws client up task_id worker_id task_plain worker_plain
          (codes "worker_id") worker_id f s.redis refl has h in
      let s1 = (hash_get S client key (codes "worker_id") s.redis).1 in
      let (m2, finds, h2) =
        update_task_status-Stored S laws client up task_id worker_id task_plain worker_plain
          o.clock.system (pos 3) error f s1 plain g.1 in
      let s2 = update_task_status S client o.clock.system task_id (pos 3) error s1 in
      let r =
        released S laws client up task_id worker_id task_plain worker_plain
          (record f { fields = m2 }) s2 lt h2 in
      rw
        (
          with_connection-found S laws o false (fail_on S o task_id error) s c p e,
          g.0,
          named,
          r.0,
          r.1,
        )
        (refl, (m2, finds, r.2), refl)
