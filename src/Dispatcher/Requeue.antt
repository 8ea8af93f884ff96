-- ===== src/Dispatcher/Requeue.antt =====
-- What retryTask leaves in Redis and in the load balancer when it accepts a task.
use my_taskflow_system.Redis.Client.{RedisClient, set_expiring}
use my_taskflow_system.Redis.Tasks.{increment_task_retry, push_to_priority_queue}
use mathlib.Core.List.{append_assoc}
use native.Mathlib.Nat.{one-le-pow}
use my_taskflow_system.Common.{
  subst, sym, ◌++◌, ◌-◌, ℕ, ◌+◌, ◌<◌, ◌^◌, ◌≡◌, refl, ap, ◌∙◌, true, false, some, Text, text_eq,
  c_str, codes, arith, is_empty,
}
use my_taskflow_system.Common.Int.{leb_ℤ, increment, ℤ, pos}
use my_taskflow_system.Common.Maps.{find-put, Map, find, put}
use my_taskflow_system.Common.Exec.{ok}
use my_taskflow_system.Common.Decimal.{IsInt, to_string}
use my_taskflow_system.Redis.Server.{Server}
use my_taskflow_system.Redis.Client.{hash_get}
use my_taskflow_system.Redis.Tasks.{
  TaskInfo, task_key, get_task, decrement_worker_load, get_worker_load,
}
use my_taskflow_system.Redis.Laws.{RedisLaws, text_value}
use my_taskflow_system.Redis.Pool.{Shared, RedisPool, get_connection}
use my_taskflow_system.Redis.Claims.{IsValid}
use my_taskflow_system.Redis.RoundTrip.{IsTask, request_ran}
use my_taskflow_system.Redis.RoundTrip
use my_taskflow_system.Redis.Status.{digits-c_str}
use my_taskflow_system.Redis.Facts.{Facts, Stored}
use my_taskflow_system.Redis.Lists.{push_spec, Queues}
use my_taskflow_system.Redis.Lists
use my_taskflow_system.Redis.Queues.{push_to_priority_queue-others}
use my_taskflow_system.Redis.Carry.{
  queue_of-apart, push_to_priority_queue-Stored, push_to_priority_queue-Stored, set_expiring-Stored,
  increment_task_retry-Stored, hash_get-Stored, get_task-Stored,
}
use my_taskflow_system.Balancer.Model.{update_worker_load}
use my_taskflow_system.Dispatcher.Model.{
  retry_key, System, Surroundings, give_back, calls, tries, balances,
}
use my_taskflow_system.Dispatcher.Methods.{schedule_retry, retry_on, retry_task}
use my_taskflow_system.Dispatcher.Submission.{with_connection-found, leased_up}
use my_taskflow_system.Dispatcher.Effects.{released}

Holds-retried :
    (m : Map Text) (t : TaskInfo) (z : ℤ)
    → RoundTrip.Holds m t
    → RoundTrip.Holds (put (codes "retry_count") (to_string z) m) (record t { retry_count = z })
unfolding text_eq
Holds-retried m t z h = (
  simp find-put h.0,
  simp find-put h.1,
  simp find-put h.2,
  simp find-put h.3,
  simp find-put h.4,
  simp find-put h.5,
  simp find-put h.6,
  simp find-put,
  simp find-put h.8,
  simp find-put h.9,
)

IsTask-retried : (t : TaskInfo) (z : ℤ) → IsTask t → IsInt z → IsTask (record t { retry_count = z })
IsTask-retried t z it i = record {
  type_int = it.type_int;
  priority_int = it.priority_int;
  created_int = it.created_int;
  started_int = it.started_int;
  finished_int = it.finished_int;
  status_int = it.status_int;
  retry_int = i;
}

delay_positive : (n : ℕ) → 0 < 2 ^ n
delay_positive n = one-le-pow n 2 (omega arith)

retry_key_plain :
    (n : ℕ) (task_id : Text)
    → c_str task_id ≡ task_id
    → c_str (retry_key (pos n) task_id) ≡ retry_key (pos n) task_id
unfolding c_str to_string
retry_key_plain n task_id plain =
    let rest = codes ":" ++ task_id in
    let tail : c_str rest ≡ rest = ap (λ i. codes ":" ++ i) plain in
    let plain_rest : c_str (to_string (pos n) ++ rest) ≡ to_string (pos n) ++ rest =
      digits-c_str 20 n rest tail in
    let joined = append_assoc (to_string (pos n)) (codes ":") task_id in
    ap (λ i. codes "retry:" ++ i) (subst (λ i. c_str i ≡ i) (sym joined) plain_rest)

-- What the key of the delay holds, after the push of the id too.
module _ (S : Server) (laws : RedisLaws S) (client : RedisClient)
    (up : client.connected ≡ true) where
  set_expiring-text :
      (k v : Text) (seconds : ℕ) (s : S.State)
      → 0 < seconds
      → c_str k ≡ k
      → c_str v ≡ v
      → laws.view (set_expiring S client k v (pos seconds) s).1 k ≡ text_value v
  unfolding set_expiring
  set_expiring-text k v seconds s lt ck cv =
      let r = laws.setex_law k v seconds s lt in
      rw (ck, cv, request_ran S laws client up r) r.described.1

  push_to_priority_queue-retry_key :
      (priority delay : ℤ) (task_id : Text) (s : S.State) (q : Queues)
      → c_str task_id ≡ task_id
      → Lists.Holds S laws s q
      → laws.view (push_to_priority_queue S client priority task_id s).1 (retry_key delay task_id)
        ≡ laws.view s (retry_key delay task_id)
  push_to_priority_queue-retry_key priority delay task_id s q plain h =
      push_to_priority_queue-others S laws client up priority task_id s q (retry_key delay task_id)
        plain h
        (queue_of-apart priority b'r' (codes "etry:" ++ to_string delay ++ codes ":" ++ task_id)
          refl)

module _ (S : Server) (laws : RedisLaws S) (o : Surroundings) (s : System S.State) (c : Shared)
    (p : RedisPool) (v : IsValid s.pool) (e : get_connection o.attempts s.pool ≡ (some c, p))
    (task_id worker_id : Text) (task_plain : c_str task_id ≡ task_id)
    (worker_plain : c_str worker_id ≡ worker_id) (f : Facts)
    (h : Stored S laws task_id worker_id f s.redis) where
  up : c.client.connected ≡ true
  up = leased_up S laws o s c p v e

  -- retryTask, once the valid pool has a connection for it, of a task that a worker has and that
  -- has been retried n times, n below three: it returns true, the retry count is one more, the key
  -- retry:<delay>:<id> with a delay of 2 ^ n has been set to the id for that many seconds right
  -- before the push and holds it, and the id is at the end of the queue of the task's priority at
  -- once, whatever the delay; one comes off the load of the worker in Redis and in the load
  -- balancer. The other fields are as they were, the worker and the status among them. The ids have no NUL, the worker's is not empty, the
  -- numbers and the load are in the range of their types, and Redis holds the fields of the task,
  -- the load as a number and the queues as lists.
  pub retry_task-Stored :
      (t : TaskInfo) (n : ℕ)
      → t.id ≡ task_id
      → IsTask t
      → RoundTrip.Holds f.fields t
      → t.retry_count ≡ pos n
      → n < 3
      → is_empty worker_id ≡ false
      → find (codes "worker_id") f.fields ≡ some worker_id
      → f.load < 2 ^ 31
      → let r = retry_task S o task_id s in
        (r.0 ≡ ok true)
        × Stored S laws task_id worker_id
            (record {
              fields = put (codes "retry_count") (to_string (pos (n + 1))) f.fields;
              load = f.load - 1;
              queues = push_spec t.priority task_id f.queues;
            })
            r.1.redis
        × (r.1.balancer ≡ update_worker_load worker_id (pos (f.load - 1)) s.balancer)
        × ((earlier : S.State) × (r.1.redis
              ≡ (push_to_priority_queue S c.client t.priority task_id
                  (set_expiring S c.client
                    (codes "retry:" ++ to_string (pos (2 ^ n)) ++ codes ":" ++ task_id)
                    task_id
                    (pos (2 ^ n))
                    earlier).1).1))
        × (laws.view r.1.redis (codes "retry:" ++ to_string (pos (2 ^ n)) ++ codes ":" ++ task_id)
            ≡ text_value task_id)
  unfolding retry_task retry_on schedule_retry give_back calls tries balances c_str
  retry_task-Stored t n same it k count few named has lt =
      let client = c.client in
      let key = task_key task_id in
      let g =
        get_task-Stored S laws client up task_id worker_id task_plain worker_plain o.memory t f
          s.redis same it k h in
      let s1 = (get_task S client o.memory task_id s.redis).1 in
      let w =
        hash_get-Stored S laws client up task_id worker_id task_plain worker_plain
          (codes "worker_id") worker_id f s1 refl has g.1 in
      let s2 = (hash_get S client key (codes "worker_id") s1).1 in
      let r = released S laws client up task_id worker_id task_plain worker_plain f s2 lt w.1 in
      let s3 =
        (get_worker_load S client worker_id (decrement_worker_load S client worker_id s2).1).1 in
      let f3 = record f { load = f.load - 1 } in
      let more =
        increment_task_retry-Stored S laws client up task_id worker_id task_plain worker_plain
          (pos n) f3 s3 (omega arith) (k.7 ∙ ap (λ z. some (to_string z)) count) r.2 in
      let s4 = (increment_task_retry S client task_id s3).1 in
      let next : increment (pos n) ≡ pos (n + 1) = ground arith in
      let m4 = put (codes "retry_count") (to_string (pos (n + 1))) f.fields in
      let f4 = record f3 { fields = m4 } in
      let h4 : Stored S laws task_id worker_id f4 s4 = rw next at more.1 in
      let t4 : TaskInfo = record t { retry_count = pos (n + 1) } in
      let again =
        get_task-Stored S laws client up task_id worker_id task_plain worker_plain o.second_memory
          t4 f4 s4 same (IsTask-retried t (pos (n + 1)) it (omega arith))
          (Holds-retried f.fields t (pos (n + 1)) k) h4 in
      let s5 = (get_task S client o.second_memory task_id s4).1 in
      let delay = 2 ^ n in
      let h6 =
        set_expiring-Stored S laws client up task_id worker_id task_plain worker_plain
          (codes "etry:" ++ to_string (pos delay) ++ codes ":" ++ task_id) delay f4 s5
          (delay_positive n) (retry_key_plain delay task_id task_plain) again.1 in
      let s6 = (set_expiring S client (retry_key (pos delay) task_id) task_id (pos delay) s5).1 in
      let h7 =
        push_to_priority_queue-Stored S laws client up task_id worker_id task_plain worker_plain
          t.priority f4 s6 h6 in
      let kept =
        push_to_priority_queue-retry_key S laws client up t.priority (pos delay) task_id s6 f.queues
          task_plain h6.waiting
        ∙ set_expiring-text S laws client up (retry_key (pos delay) task_id) task_id delay s5
            (delay_positive n) (retry_key_plain delay task_id task_plain) task_plain in
      let below : leb_ℤ (pos 3) (pos n) ≡ false = ground arith in
      rw
        (
          with_connection-found S laws o false (retry_on S o task_id) s c p e,
          g.0,
          count,
          below,
          w.0,
          named,
          r.0,
          r.1,
          more.0,
          again.0,
        )
        (refl, h7.1, refl, (s5, refl), kept)
