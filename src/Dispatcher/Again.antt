-- ===== src/Dispatcher/Again.antt =====
-- failTask of scheduler/task_dispatcher.cpp and then retryTask, for the same task.
use my_taskflow_system.Common.{
  subst, ℕ, ◌-◌, ◌<◌, ◌^◌, ◌≡◌, refl, ◌∙◌, true, false, some, Text, text_eq, c_str, codes, is_empty,
  arith, if◌then◌else◌,
}
use my_taskflow_system.Common.Int.{pos}
use my_taskflow_system.Common.Maps.{Map, find}
use my_taskflow_system.Common.Exec.{ok}
use my_taskflow_system.Redis.Server.{Server}
use my_taskflow_system.Redis.Tasks.{TaskInfo}
use my_taskflow_system.Redis.Laws.{RedisLaws}
use my_taskflow_system.Redis.Pool.{get_connection}
use my_taskflow_system.Redis.Claims.{IsValid}
use my_taskflow_system.Redis.Usable.{usable_in, get_connection-some}
use my_taskflow_system.Redis.RoundTrip.{IsTask}
use my_taskflow_system.Redis.RoundTrip
use my_taskflow_system.Redis.Lists.{push_spec}
use my_taskflow_system.Redis.Lists as Queues
use my_taskflow_system.Redis.Loads.{LoadIs}
use my_taskflow_system.Redis.Facts.{Facts, Stored}
use my_taskflow_system.Dispatcher.Model.{System, Surroundings}
use my_taskflow_system.Dispatcher.Methods.{fail_task, retry_task}
use my_taskflow_system.Dispatcher.Connections.{perform, perform-Returned, fails}
use my_taskflow_system.Dispatcher.Endings.{failed, fail_task-Stored}
use my_taskflow_system.Dispatcher.Requeue.{retry_task-Stored}

abbrev unsuccessful : ℕ → Text → TaskInfo → TaskInfo
unsuccessful now error t = record t {
  status = pos 3;
  finished_at = pos now;
  error_message = if is_empty error then t.error_message else error;
}

Holds-failed :
    (now : ℕ) (error : Text) (m after : Map Text) (t : TaskInfo)
    → RoundTrip.Holds m t
    → ((field : Text) → find field after ≡ failed now error m field)
    → RoundTrip.Holds after (unsuccessful now error t)
unfolding text_eq
Holds-failed now error m after t h finds = (
  finds _ ∙ h.0,
  finds _ ∙ h.1,
  finds _ ∙ h.2,
  finds _ ∙ h.3,
  finds _ ∙ h.4,
  finds _,
  finds _,
  finds _ ∙ h.7,
  finds _ ∙ ground (arith, h.8),
  finds _ ∙ h.9,
)

IsTask-unsuccessful :
    (now : ℕ) (error : Text) (t : TaskInfo)
    → now < 2 ^ 63
    → IsTask t
    → IsTask (unsuccessful now error t)
IsTask-unsuccessful now error t lt it = record {
  type_int = it.type_int;
  priority_int = it.priority_int;
  created_int = it.created_int;
  started_int = it.started_int;
  finished_int = omega arith;
  status_int = omega arith;
  retry_int = it.retry_int;
}

module _ (S : Server) (laws : RedisLaws S) where
  open S use {State}

  -- A task that a worker has, which fails and is retried, takes two off the load of the worker,
  -- unless the load ends at 0 before, though it was counted once: both failTask and retryTask take
  -- one off, and the task keeps its worker. Both calls return true, and the id is at the end of the
  -- queue of its priority. From a valid pool with a free connected client; the texts have no NUL,
  -- the worker's id is not empty, the numbers, the load and the clock are in the range of their
  -- types, the task has been retried fewer than three times, and Redis holds the fields of the
  -- task, the load as a number and the queues as lists.
  pub retry_task-fail_task :
      (o1 o2 : Surroundings) (t : TaskInfo) (n : ℕ) (worker_id error : Text) (s : System State)
      (f : Facts)
      → IsValid s.pool
      → usable_in s.pool ≡ true
      → IsTask t
      → RoundTrip.Holds f.fields t
      → t.retry_count ≡ pos n
      → n < 3
      → c_str t.id ≡ t.id
      → c_str worker_id ≡ worker_id
      → c_str error ≡ error
      → is_empty worker_id ≡ false
      → find (codes "worker_id") f.fields ≡ some worker_id
      → o1.clock.system < 2 ^ 63
      → f.load < 2 ^ 31
      → Stored S laws t.id worker_id f s.redis
      → let first = fail_task S o1 t.id error s in
        let second = retry_task S o2 t.id first.1 in
        (first.0 ≡ ok true)
        × (second.0 ≡ ok true)
        × LoadIs S laws worker_id (f.load - 2) second.1.redis
        × Queues.Holds S laws second.1.redis (push_spec t.priority t.id f.queues)
  unfolding perform text_eq
  retry_task-fail_task o1 o2 t n w error s f v u it k count few tp wp ep wn has lt1 lt h =
      let c1 = get_connection-some o1.attempts s.pool u in
      let r1 =
        fail_task-Stored S laws o1 s c1.0 (get_connection o1.attempts s.pool).1 v c1.1 t.id w tp wp
          f h error wn ep has lt in
      let (after, finds, h1) = r1.1 in
      let p1 = perform-Returned S (fails t.id error) o1 s v in
      let s1 = (fail_task S o1 t.id error s).1 in
      let u1 = p1.stays_usable true r1.0 u in
      let c2 = get_connection-some o2.attempts s1.pool u1 in
      let r2 =
        retry_task-Stored S laws o2 s1 c2.0 (get_connection o2.attempts s1.pool).1 p1.valid c2.1
          t.id w tp wp (record f { fields = after; load = f.load - 1 }) h1
          (unsuccessful o1.clock.system error t) n refl
          (IsTask-unsuccessful o1.clock.system error t lt1 it)
          (Holds-failed o1.clock.system error f.fields after t k finds) count few wn
          (finds (codes "worker_id") ∙ has) (omega arith) in
      let two : f.load - 1 - 1 ≡ f.load - 2 = omega arith in
      (
        r1.0,
        r2.0,
        subst (λ i. LoadIs S laws w i (retry_task S o2 t.id s1).1.redis) two r2.1.worker,
        r2.1.waiting,
      )
