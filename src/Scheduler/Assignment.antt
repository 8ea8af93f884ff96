-- ===== src/Scheduler/Assignment.antt =====
-- scheduler.cpp, taskDispatchLoop: a task that a worker is there for.
use my_taskflow_system.Common.{
  ◌+◌, ◌<◌, ◌^◌, ◌≡◌, refl, ap, ◌∙◌, true, false, List, ◌++◌, Text, c_str, is_empty, codes,
}
use my_taskflow_system.Common.Int.{pos}
use my_taskflow_system.Common.Exec.{ok, bind_ok}
use my_taskflow_system.Redis.Server.{Server}
use my_taskflow_system.Redis.Tasks.{TaskInfo, task_key, load_key}
use my_taskflow_system.Redis.Laws.{RedisLaws, as_hash}
use my_taskflow_system.Redis.Pool.{get_connection}
use my_taskflow_system.Redis.Claims.{IsValid}
use my_taskflow_system.Redis.Usable.{usable_in, get_connection-some}
use my_taskflow_system.Redis.RoundTrip.{IsTask}
use my_taskflow_system.Redis.RoundTrip
use my_taskflow_system.Redis.Lists.{Fit, pop_spec}
use my_taskflow_system.Redis.Facts.{Facts, Stored}
use my_taskflow_system.Redis.Carry.{queue_of-apart}
use my_taskflow_system.Balancer.Model.{Readings, LoadBalancer, update_worker_load}
use my_taskflow_system.Balancer.Strategies.{Circle, select_worker}
use my_taskflow_system.Dispatcher.Model.{System, Surroundings}
use my_taskflow_system.Dispatcher.Methods.{pop_next_task, assign_task_to_worker}
use my_taskflow_system.Dispatcher.Submission.{pop_next_task-pop_spec}
use my_taskflow_system.Dispatcher.Connections.{perform, pops, perform-Returned}
use my_taskflow_system.Dispatcher.Effects.{assigned, assign_task_to_worker-Stored}
use my_taskflow_system.Scheduler.Loops.{selects, dispatch_to, dispatch_round}
use my_taskflow_system.Scheduler.Dispatch.{pop_next_task-rest}

module _ (S : Server) (laws : RedisLaws S) where
  open S use {State}

  -- A pop changes the queues and nothing else of what Redis holds.
  pop_next_task-Stored :
      (o : Surroundings) (s : System State) (task_id worker_id : Text) (f : Facts)
      → IsValid s.pool
      → usable_in s.pool ≡ true
      → Fit f.queues
      → Stored S laws task_id worker_id f s.redis
      → let r = pop_next_task S o s in
        (r.0 ≡ ok (pop_spec f.queues).0)
        × Stored S laws task_id worker_id (record f { queues = (pop_spec f.queues).1 }) r.1.redis
        × (r.1.balancer ≡ s.balancer)
  pop_next_task-Stored o s task_id worker_id f v u fit h =
      let q = f.queues in
      let (c, e) = get_connection-some o.attempts s.pool u in
      let p = (get_connection o.attempts s.pool).1 in
      let popped = pop_next_task-pop_spec S laws o s c p q.high q.medium q.low v e fit h.waiting in
      let task =
        pop_next_task-rest S laws o s c p q.high q.medium q.low (task_key task_id) v e fit h.waiting
          (λ n. queue_of-apart n b't' (codes "ask:" ++ task_id) refl) in
      let load =
        pop_next_task-rest S laws o s c p q.high q.medium q.low (load_key worker_id) v e fit
          h.waiting (λ n. queue_of-apart n b'w' (codes "orker:load:" ++ worker_id) refl) in
      (
        popped.0,
        record {
          hash = ap as_hash task.0 ∙ h.hash;
          worker = load.0 ∙ h.worker;
          waiting = popped.1;
        },
        task.1,
      )

  module _ (sort : List Circle → List Circle) where
    round_assigns :
        (o later : Surroundings) (r : Readings) (id worker_id : Text) (lb : LoadBalancer)
        (s : System State)
        → let s1 = (pop_next_task S o s).1 in
          let s2 = record s1 { balancer = lb } in
          (pop_next_task S o s).0 ≡ ok id
          → is_empty id ≡ false
          → is_empty worker_id ≡ false
          → select_worker sort r id s1.balancer ≡ (worker_id, lb)
          → (assign_task_to_worker S later id worker_id s2).0 ≡ ok true
          → dispatch_round S sort o later r s
            ≡ (ok 0, (assign_task_to_worker S later id worker_id s2).1)
    unfolding dispatch_round selects dispatch_to
    round_assigns o later r id worker_id lb s popped full named chosen done =
        let s2 = record (pop_next_task S o s).1 { balancer = lb } in
        bind_ok (pop_next_task S o s) id _ popped
        ∙ rw (full, chosen, named)
            (bind_ok (assign_task_to_worker S later id worker_id s2) true _ done)

    -- A round of taskDispatchLoop that pops a task for which selectWorker has a worker gives it to
    -- that worker: the id is gone from the front of the first queue that was not empty, the task is
    -- running with the worker and the clock as its start, the load of the worker is one more in
    -- Redis and in the load balancer, and the loop goes on without a sleep. The valid pool has a
    -- free connected client, no queue holds an empty id, Redis holds the fields of the task, the
    -- load as a number and the queues as lists, the numbers and the load are in the range of their
    -- types, and the two ids have no NUL and are not empty.
    pub dispatch_round-assigned :
        (o later : Surroundings) (r : Readings) (t : TaskInfo) (worker_id : Text)
        (lb : LoadBalancer) (s : System State) (f : Facts)
        → IsValid s.pool
        → usable_in s.pool ≡ true
        → Fit f.queues
        → (pop_spec f.queues).0 ≡ t.id
        → IsTask t
        → RoundTrip.Holds f.fields t
        → c_str t.id ≡ t.id
        → c_str worker_id ≡ worker_id
        → is_empty t.id ≡ false
        → is_empty worker_id ≡ false
        → f.load + 1 < 2 ^ 31
        → select_worker sort r t.id s.balancer ≡ (worker_id, lb)
        → Stored S laws t.id worker_id f s.redis
        → let round = dispatch_round S sort o later r s in
          (round.0 ≡ ok 0)
          × Stored S laws t.id worker_id
              (record {
                fields = assigned later.clock.system worker_id f.fields;
                load = f.load + 1;
                queues = (pop_spec f.queues).1;
              })
              round.1.redis
          × (round.1.balancer ≡ update_worker_load worker_id (pos (f.load + 1)) lb)
    unfolding perform
    dispatch_round-assigned o later r t worker_id lb s f v u fit head it k tp wp tn wn lt chosen h =
        let popped = pop_next_task-Stored o s t.id worker_id f v u fit h in
        let s1 = (pop_next_task S o s).1 in
        let s2 = record s1 { balancer = lb } in
        let after = perform-Returned S pops o s v in
        let usable = after.stays_usable (pop_spec f.queues).0 popped.0 u in
        let (c, e) = get_connection-some later.attempts s1.pool usable in
        let given =
          assign_task_to_worker-Stored S laws later s2 c (get_connection later.attempts s1.pool).1
            after.valid e t.id worker_id tp wp (record f { queues = (pop_spec f.queues).1 })
            popped.1 t refl tn it k lt in
        let picked = ap (select_worker sort r t.id) popped.2 ∙ chosen in
        rw
          (round_assigns o later r t.id worker_id lb s (popped.0 ∙ ap ok head) tn wn picked given.0)
          (refl, given.1, given.2)
