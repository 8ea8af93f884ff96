-- ===== src/Dispatcher/LifeCycle.antt =====
-- A task from its submission to its end, through the methods of scheduler/task_dispatcher.cpp.
use my_taskflow_system.Common.{
  subst, ℕ, ◌+◌, ◌-◌, ◌<◌, ◌^◌, ◌≡◌, refl, ap, ◌∙◌, true, false, some, Text, text_eq, c_str, codes,
  is_empty, arith,
}
use my_taskflow_system.Common.Int.{pos}
use my_taskflow_system.Common.Maps.{Map, find, find-put}
use my_taskflow_system.Common.Exec.{ok}
use my_taskflow_system.Common.Decimal.{to_string}
use my_taskflow_system.Redis.Server.{Server}
use my_taskflow_system.Redis.Tasks.{TaskInfo, task_fields}
use my_taskflow_system.Redis.Laws.{RedisLaws, enter}
use my_taskflow_system.Redis.Pool.{get_connection}
use my_taskflow_system.Redis.Claims.{IsValid}
use my_taskflow_system.Redis.Usable.{usable_in, get_connection-some}
use my_taskflow_system.Redis.RoundTrip.{IsTask, Holds-enter}
use my_taskflow_system.Redis.RoundTrip
use my_taskflow_system.Redis.Lists.{push_spec}
use my_taskflow_system.Redis.Loads.{LoadIs}
use my_taskflow_system.Redis.Facts.{Facts, Stored}
use my_taskflow_system.Balancer.Model.{update_worker_load, record_success_of}
use my_taskflow_system.Dispatcher.Model.{TaskRequest, TaskResult, System, Surroundings, submitted}
use my_taskflow_system.Dispatcher.Methods.{
  submit_task, assign_task_to_worker, complete_task, get_task_info,
}
use my_taskflow_system.Dispatcher.Connections.{
  perform, perform-Returned, submits, assigns, completes,
}
use my_taskflow_system.Dispatcher.Effects.{
  assigned, submit_task-Stored, assign_task_to_worker-Stored, get_task_info-Stored,
}
use my_taskflow_system.Dispatcher.Endings.{completed, complete_task-Stored}

abbrev pub running : ℕ → TaskInfo → TaskInfo
running now t = record t { status = pos 1; started_at = pos now }

abbrev pub succeeded : ℕ → Text → TaskInfo → TaskInfo
succeeded now result t = record t { status = pos 2; finished_at = pos now; result = result }

one : codes "1" ≡ to_string (pos 1)
unfolding to_string
one = refl

Holds-assigned :
    (now : ℕ) (worker_id : Text) (m : Map Text) (t : TaskInfo)
    → RoundTrip.Holds m t
    → RoundTrip.Holds (assigned now worker_id m) (running now t)
unfolding text_eq
Holds-assigned now worker_id m t h = (
  simp find-put h.0,
  simp find-put h.1,
  simp find-put h.2,
  simp find-put h.3,
  simp find-put,
  simp find-put h.5,
  simp find-put (ap some one),
  simp find-put h.7,
  simp find-put h.8,
  simp find-put h.9,
)

Holds-completed :
    (now : ℕ) (result : Text) (m after : Map Text) (t : TaskInfo)
    → RoundTrip.Holds m t
    → ((field : Text) → find field after ≡ completed now result m field)
    → RoundTrip.Holds after (succeeded now result t)
unfolding text_eq
Holds-completed now result m after t h finds = (
  finds _ ∙ h.0,
  finds _ ∙ h.1,
  finds _ ∙ h.2,
  finds _ ∙ h.3,
  finds _ ∙ h.4,
  finds _,
  finds _,
  finds _ ∙ h.7,
  finds _ ∙ h.8,
  finds _,
)

IsTask-running : (now : ℕ) (t : TaskInfo) → now < 2 ^ 63 → IsTask t → IsTask (running now t)
IsTask-running now t lt it = record {
  type_int = it.type_int;
  priority_int = it.priority_int;
  created_int = it.created_int;
  started_int = omega arith;
  finished_int = it.finished_int;
  status_int = omega arith;
  retry_int = it.retry_int;
}

IsTask-succeeded :
    (now : ℕ) (result : Text) (t : TaskInfo)
    → now < 2 ^ 63
    → IsTask t
    → IsTask (succeeded now result t)
IsTask-succeeded now result t lt it = record {
  type_int = it.type_int;
  priority_int = it.priority_int;
  created_int = it.created_int;
  started_int = it.started_int;
  finished_int = omega arith;
  status_int = omega arith;
  retry_int = it.retry_int;
}

assigned-worker :
    (now : ℕ) (worker_id : Text) (m : Map Text)
    → find (codes "worker_id") (assigned now worker_id m) ≡ some worker_id
unfolding text_eq
assigned-worker now worker_id m = simp find-put

module _ (S : Server) (laws : RedisLaws S) where
  open S use {State}

  -- A task that is submitted, assigned to a worker and completed, from a valid pool with a free
  -- connected client: each call returns true, and getTaskInfo then reports the task as it was
  -- submitted, with status success, the times of its assignment and of its completion, and its
  -- result. The load of the worker in Redis is what it was before, the load balancer is told that,
  -- and it has a success of the worker. The texts have no NUL, the ids are not empty, and the
  -- numbers, the clocks and the load are in the range of their types. Before, the key of the task
  -- holds nothing but a hash, that of the worker its load as a number, and those of the queues
  -- lists.
  pub complete_task-submit_task :
      (o1 o2 o3 o4 : Surroundings) (t : TaskRequest) (worker_id : Text) (result : TaskResult)
      (s : System State) (f : Facts)
      → IsValid s.pool
      → usable_in s.pool ≡ true
      → IsTask (submitted o1.memory t)
      → c_str t.id ≡ t.id
      → c_str worker_id ≡ worker_id
      → c_str result.result ≡ result.result
      → is_empty t.id ≡ false
      → is_empty worker_id ≡ false
      → o2.clock.system < 2 ^ 63
      → o3.clock.system < 2 ^ 63
      → f.load + 1 < 2 ^ 31
      → Stored S laws t.id worker_id f s.redis
      → let first = submit_task S o1 t s in
        let second = assign_task_to_worker S o2 t.id worker_id first.1 in
        let third = complete_task S o3 t.id result second.1 in
        (first.0 ≡ ok true)
        × (second.0 ≡ ok true)
        × (third.0 ≡ ok true)
        × ((get_task_info S o4 t.id third.1).0
            ≡ ok (
                succeeded o3.clock.system result.result
                  (running o2.clock.system (submitted o1.memory t))))
        × LoadIs S laws worker_id f.load third.1.redis
        × (third.1.balancer
            ≡ record_success_of worker_id (
                update_worker_load worker_id
                  (pos f.load)
                  (update_worker_load worker_id (pos (f.load + 1)) s.balancer)))
  unfolding perform
  complete_task-submit_task o1 o2 o3 o4 t worker_id result s f v u it tp wp rp tn wn lt2 lt3 lt h =
      let info = submitted o1.memory t in
      let f1 : Facts = record {
        fields = enter (task_fields info) f.fields;
        load = f.load;
        queues = push_spec t.priority t.id f.queues;
      } in
      let c1 = get_connection-some o1.attempts s.pool u in
      let r1 =
        submit_task-Stored S laws o1 s c1.0 (get_connection o1.attempts s.pool).1 v c1.1 t.id
          worker_id tp wp f h t refl in
      let p1 = perform-Returned S (submits t) o1 s v in
      let s1 = (submit_task S o1 t s).1 in
      let u1 = p1.stays_usable true r1.0 u in
      let c2 = get_connection-some o2.attempts s1.pool u1 in
      let r2 =
        assign_task_to_worker-Stored S laws o2 s1 c2.0 (get_connection o2.attempts s1.pool).1
          p1.valid c2.1 t.id worker_id tp wp f1 r1.1 info refl tn it (Holds-enter info f.fields)
          lt in
      let p2 = perform-Returned S (assigns t.id worker_id) o2 s1 p1.valid in
      let s2 = (assign_task_to_worker S o2 t.id worker_id s1).1 in
      let u2 = p2.stays_usable true r2.0 u1 in
      let f2 : Facts = record {
        fields = assigned o2.clock.system worker_id f1.fields;
        load = f.load + 1;
        queues = f1.queues;
      } in
      let k2 =
        Holds-assigned o2.clock.system worker_id f1.fields info (Holds-enter info f.fields) in
      let c3 = get_connection-some o3.attempts s2.pool u2 in
      let r3 =
        complete_task-Stored S laws o3 s2 c3.0 (get_connection o3.attempts s2.pool).1 p2.valid c3.1
          t.id worker_id tp wp f2 r2.1 result wn rp
          (assigned-worker o2.clock.system worker_id f1.fields) lt in
      let (after, finds, h3) = r3.1 in
      let p3 = perform-Returned S (completes t.id result) o3 s2 p2.valid in
      let s3 = (complete_task S o3 t.id result s2).1 in
      let u3 = p3.stays_usable true r3.0 u2 in
      let c4 = get_connection-some o4.attempts s3.pool u3 in
      let less : f.load + 1 - 1 ≡ f.load = omega arith in
      let now2 = running o2.clock.system info in
      let r4 =
        get_task_info-Stored S laws o4 s3 c4.0 (get_connection o4.attempts s3.pool).1 p3.valid c4.1
          t.id worker_id tp wp (record f2 { fields = after; load = f.load + 1 - 1 }) h3
          (succeeded o3.clock.system result.result now2) refl
          (IsTask-succeeded o3.clock.system result.result now2 lt3
            (IsTask-running o2.clock.system info lt2 it))
          (Holds-completed o3.clock.system result.result f2.fields after now2 k2 finds) in
      let balanced =
        rw less at r3.2
        ∙ ap (λ b. record_success_of worker_id (update_worker_load worker_id (pos f.load) b))
            (r2.2 ∙ ap (update_worker_load worker_id (pos (f.load + 1))) r1.2) in
      (
        r1.0,
        r2.0,
        r3.0,
        r4,
        subst (λ n. LoadIs S laws worker_id n s3.redis) less h3.worker,
        balanced,
      )
