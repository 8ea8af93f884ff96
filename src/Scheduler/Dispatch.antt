-- ===== src/Scheduler/Dispatch.antt =====
-- scheduler.cpp, taskDispatchLoop: a task that no worker is there for.
use my_taskflow_system.Common.{
  ◌≡◌, refl, ap, ◌∙◌, true, false, some, List, [], Text, c_str, is_empty, text_eq, codes,
}
use my_taskflow_system.Common.Int.{ℤ}
use my_taskflow_system.Common.Maps.{Map}
use my_taskflow_system.Common.Exec.{ok, bind_ok}
use my_taskflow_system.Redis.Server.{Server}
use my_taskflow_system.Redis.Tasks.{TaskInfo, Memory, task_key, task_fields, queue_of, get_task}
use my_taskflow_system.Redis.Laws.{RedisLaws, as_hash, as_list, enter}
use my_taskflow_system.Redis.Pool.{Shared, RedisPool, get_connection}
use my_taskflow_system.Redis.Claims.{IsValid}
use my_taskflow_system.Redis.RoundTrip.{IsTask, get_task-fields, get_task-view}
use my_taskflow_system.Redis.Lists.{Queues, Holds, Fit, push_spec, pop_spec}
use my_taskflow_system.Redis.Queues.{
  push_to_priority_queue-push_spec, pop_from_priority_queue-others,
}
use my_taskflow_system.Balancer.Model.{Readings, LoadBalancer}
use my_taskflow_system.Balancer.Strategies.{Circle, select_worker}
use my_taskflow_system.Dispatcher.Model.{System, Surroundings, give_back, calls, tries}
use my_taskflow_system.Dispatcher.Methods.{pop_on, pop_next_task}
use my_taskflow_system.Dispatcher.Submission.{
  with_connection-found, leased_up, task_apart, pop_next_task-pop_spec,
}
use my_taskflow_system.Dispatcher.Connections.{perform, pops, perform-Returned}
use my_taskflow_system.Scheduler.Loops.{requeue_on, requeue, selects, dispatch_to, dispatch_round}

module _ (S : Server) (laws : RedisLaws S) where
  open S use {State}

  get_task-Holds :
      (c : Shared) (up : c.client.connected ≡ true) (mem : Memory) (t : TaskInfo) (s : State)
      (m : Map Text) (q : Queues)
      → c_str t.id ≡ t.id
      → as_hash (laws.view s (task_key t.id)) ≡ some m
      → Holds S laws s q
      → Holds S laws (get_task S c.client mem t.id s).1 q
  get_task-Holds c up mem t s m q cs h k =
      let same = get_task-view S laws c.client up mem t.id s m cs h in
      record {
        high_list = ap as_list (same (codes "queue:high")) ∙ k.high_list;
        medium_list = ap as_list (same (codes "queue:medium")) ∙ k.medium_list;
        low_list = ap as_list (same (codes "queue:low")) ∙ k.low_list;
      }

  requeue-push_spec :
      (o : Surroundings) (t : TaskInfo) (s : System State) (c : Shared) (p : RedisPool)
      (m : Map Text) (q : Queues)
      → IsValid s.pool
      → get_connection o.attempts s.pool ≡ (some c, p)
      → IsTask t
      → c_str t.id ≡ t.id
      → is_empty t.id ≡ false
      → as_hash (laws.view s.redis (task_key t.id)) ≡ some (enter (task_fields t) m)
      → Holds S laws s.redis q
      → ((requeue S o t.id s).0 ≡ ok tt)
        × Holds S laws (requeue S o t.id s).1.redis (push_spec t.priority t.id q)
  unfolding requeue requeue_on give_back calls tries
  requeue-push_spec o t s c p m q v e it cs full h k =
      let up = leased_up S laws o s c p v e in
      let read = get_task-fields S laws c.client up o.memory t s.redis m it cs h in
      let kept = get_task-Holds c up o.memory t s.redis (enter (task_fields t) m) q cs h k in
      let s1 = (get_task S c.client o.memory t.id s.redis).1 in
      let pushed =
        push_to_priority_queue-push_spec S laws c.client up t.priority t.id s1 q cs kept in
      rw (with_connection-found S laws o tt (requeue_on S o t.id) s c p e, read, full)
        (refl, pushed.1)

  pub pop_next_task-rest :
      (o : Surroundings) (s : System State) (c : Shared) (p : RedisPool) (h m l : List Text)
      (j : Text)
      → let q : Queues = record { high = h; medium = m; low = l } in
        IsValid s.pool
        → get_connection o.attempts s.pool ≡ (some c, p)
        → Fit q
        → Holds S laws s.redis q
        → ((n : ℤ) → text_eq (queue_of n) j ≡ false)
        → (laws.view (pop_next_task S o s).1.redis j ≡ laws.view s.redis j)
          × ((pop_next_task S o s).1.balancer ≡ s.balancer)
  unfolding pop_next_task pop_on give_back calls
  pop_next_task-rest o s c p h m l j v e f k apart =
      let up = leased_up S laws o s c p v e in
      rw (with_connection-found S laws o [] (pop_on S o) s c p e)
        (pop_from_priority_queue-others S laws c.client up s.redis h m l j f k apart, refl)

  module _ (sort : List Circle → List Circle) where
    -- The round once the task is popped: the balancer has no worker, and the task is put back.
    round_requeues :
        (o later : Surroundings) (r : Readings) (id : Text) (lb : LoadBalancer) (s : System State)
        → let s1 = (pop_next_task S o s).1 in
          let s2 = record s1 { balancer = lb } in
          (pop_next_task S o s).0 ≡ ok id
          → is_empty id ≡ false
          → select_worker sort r id s1.balancer ≡ ([], lb)
          → (requeue S later id s2).0 ≡ ok tt
          → dispatch_round S sort o later r s ≡ (ok 1000, (requeue S later id s2).1)
    unfolding dispatch_round selects dispatch_to
    round_requeues o later r id lb s popped full chosen back =
        let s1 = (pop_next_task S o s).1 in
        bind_ok (pop_next_task S o s) id _ popped
        ∙ rw (full, chosen) (bind_ok (requeue S later id (record s1 { balancer = lb })) tt _ back)

    -- A round of taskDispatchLoop that pops a task for which selectWorker has no worker loses
    -- nothing: it puts the id at the end of the queue of the task's own priority, where the id was
    -- taken from the front of the first queue that was not empty, and sleeps a second. The valid
    -- pool has a connection for each of the two uses, no queue holds an empty id, the key of the
    -- task holds its fields, its numbers are in the range of their types, and its id has no NUL.
    pub dispatch_round-requeued :
        (o later : Surroundings) (r : Readings) (t : TaskInfo) (lb : LoadBalancer)
        (s : System State) (c d : Shared) (p p' : RedisPool) (high medium low : List Text)
        (fields : Map Text)
        → let q : Queues = record { high = high; medium = medium; low = low } in
          IsValid s.pool
          → get_connection o.attempts s.pool ≡ (some c, p)
          → get_connection later.attempts (pop_next_task S o s).1.pool ≡ (some d, p')
          → Fit q
          → Holds S laws s.redis q
          → (pop_spec q).0 ≡ t.id
          → IsTask t
          → c_str t.id ≡ t.id
          → is_empty t.id ≡ false
          → as_hash (laws.view s.redis (task_key t.id)) ≡ some (enter (task_fields t) fields)
          → select_worker sort r t.id s.balancer ≡ ([], lb)
          → ((dispatch_round S sort o later r s).0 ≡ ok 1000)
            × Holds S laws
                (dispatch_round S sort o later r s).1.redis
                (push_spec t.priority t.id (pop_spec q).1)
    unfolding perform
    dispatch_round-requeued o later r t lb s c d p p' high medium low fields v e e' f k first it cs
          full h chosen =
        let q : Queues = record { high = high; medium = medium; low = low } in
        let popped = pop_next_task-pop_spec S laws o s c p high medium low v e f k in
        let rest =
          pop_next_task-rest o s c p high medium low (task_key t.id) v e f k
            (λ n. task_apart S laws n t.id) in
        let s1 = (pop_next_task S o s).1 in
        let valid : IsValid s1.pool = (perform-Returned S pops o s v).valid in
        let back =
          requeue-push_spec later t (record s1 { balancer = lb }) d p' fields (pop_spec q).1 valid
            e' it cs full (ap as_hash rest.0 ∙ h) popped.1 in
        let picked = ap (select_worker sort r t.id) rest.1 ∙ chosen in
        rw (round_requeues o later r t.id lb s (popped.0 ∙ ap ok first) full picked back.0)
          (refl, back.1)
