-- ===== src/Redis/Carry.antt =====
-- How each method of common/redis_client.cpp that works on a task carries on what Redis holds.
use my_taskflow_system.Common.{
  ◌∷◌, ◌==◌, ◌-◌, ℕ, ◌+◌, ◌<◌, ◌^◌, ◌≡◌, refl, sym, ap, ◌∙◌, subst, true, false, some, Text,
  text_eq, c_str, codes, ◌++◌, arith,
}
use my_taskflow_system.Common.Int.{increment, ℤ, pos}
use my_taskflow_system.Common.Maps.{Map, find, put}
use my_taskflow_system.Common.Exec.{ok}
use my_taskflow_system.Common.Decimal.{IsInt, stoi_not_empty, stoi-to_string, to_string}
use my_taskflow_system.Redis.Server.{Server}
use my_taskflow_system.Redis.Client.{set_expiring, RedisClient, hash_set, hash_get}
use my_taskflow_system.Redis.Tasks.{
  task_fields, save_task, push_to_priority_queue, increment_task_retry, queue_of, TaskInfo, Memory,
  task_key, load_key, get_task, update_task_status, increment_worker_load, decrement_worker_load,
  get_worker_load,
}
use my_taskflow_system.Redis.Laws.{enter, RedisLaws, as_hash, as_list, same_everywhere}
use my_taskflow_system.Redis.Lists.{push_spec}
use my_taskflow_system.Redis.Queues.{
  push_to_priority_queue-push_spec, push_to_priority_queue-others,
}
use my_taskflow_system.Redis.RoundTrip.{
  save_task-view, IsTask, request_ran, get_task-Holds, get_task-view,
}
use my_taskflow_system.Redis.RoundTrip
use my_taskflow_system.Redis.Loads.{
  increment_worker_load-Counted, decrement_worker_load-Counted, get_worker_load-number,
}
use my_taskflow_system.Redis.Status.{
  Written, to_string-c_str, hash_set-Written, updated, update_task_status-find,
}
use my_taskflow_system.Redis.Facts.{Facts, Stored, Stored-Written, Stored-LoadIs, Stored-same}

-- No queue has a key that begins otherwise.
pub queue_of-apart :
    (p : ℤ) (a : ℕ) (t : Text) → (a == b'q') ≡ false → text_eq (queue_of p) (a ∷ t) ≡ false
unfolding queue_of text_eq
queue_of-apart p a t other = ground arith

module _ (S : Server) (laws : RedisLaws S) where
  open S use {State}

  module _ (c : RedisClient) (up : c.connected ≡ true) (task_id worker_id : Text)
      (task_plain : c_str task_id ≡ task_id) (worker_plain : c_str worker_id ≡ worker_id) where
    key_plain : c_str (task_key task_id) ≡ task_key task_id
    unfolding c_str
    key_plain = ap (λ i. codes "task:" ++ i) task_plain

    pub hash_set-Stored :
        (field v : Text) (f : Facts) (s : State)
        → c_str field ≡ field
        → c_str v ≡ v
        → Stored S laws task_id worker_id f s
        → Stored S laws task_id worker_id
            (record f { fields = put field v f.fields })
            (hash_set S c (task_key task_id) field v s).1
    hash_set-Stored field v f s cf cv h =
        let written =
          hash_set-Written S laws c up (task_key task_id) field v s s f.fields key_plain cf cv
            (h.hash, λ j _. refl) in
        Stored-Written S laws task_id worker_id f (put field v f.fields) s
          (hash_set S c (task_key task_id) field v s).1 written h

    hash_set_ok :
        (field v : Text) (f : Facts) (s : State)
        → c_str field ≡ field
        → c_str v ≡ v
        → Stored S laws task_id worker_id f s
        → (hash_set S c (task_key task_id) field v s).0 ≡ true
    unfolding hash_set
    hash_set_ok field v f s cf cv h =
        let r = laws.hset_law (task_key task_id) field v s f.fields h.hash in
        rw (key_plain, cf, cv, request_ran S laws c up r) (rw r.described.0 refl)

    pub hash_get-Stored :
        (field v : Text) (f : Facts) (s : State)
        → c_str field ≡ field
        → find field f.fields ≡ some v
        → Stored S laws task_id worker_id f s
        → ((hash_get S c (task_key task_id) field s).0 ≡ v)
          × Stored S laws task_id worker_id f (hash_get S c (task_key task_id) field s).1
    unfolding hash_get
    hash_get-Stored field v f s cf e h =
        let r = laws.hget_law (task_key task_id) field v s f.fields h.hash e in
        let same = same_everywhere S laws (task_key task_id) s r.state r.described.2 r.others in
        rw (key_plain, cf, request_ran S laws c up r)
          (rw r.described.0 r.described.1, Stored-same S laws task_id worker_id f s r.state same h)

    pub save_task-Stored :
        (t : TaskInfo) (f : Facts) (s : State)
        → t.id ≡ task_id
        → Stored S laws task_id worker_id f s
        → ((save_task S c t s).0 ≡ true)
          × Stored S laws task_id worker_id
              (record f { fields = enter (task_fields t) f.fields })
              (save_task S c t s).1
    save_task-Stored t f s e h =
        let at_id =
          subst (λ i. as_hash (laws.view s (task_key i)) ≡ some f.fields) (sym e) h.hash in
        let saved = save_task-view S laws c up t s f.fields at_id in
        let fields = enter (task_fields t) f.fields in
        let s' = (save_task S c t s).1 in
        let written = subst (λ i. Written S laws (task_key i) s s' fields) e (saved.1, saved.2) in
        (saved.0, Stored-Written S laws task_id worker_id f fields s s' written h)

    pub get_task-Stored :
        (mem : Memory) (t : TaskInfo) (f : Facts) (s : State)
        → t.id ≡ task_id
        → IsTask t
        → RoundTrip.Holds f.fields t
        → Stored S laws task_id worker_id f s
        → ((get_task S c mem task_id s).0 ≡ ok t)
          × Stored S laws task_id worker_id f (get_task S c mem task_id s).1
    get_task-Stored mem t f s e v k h =
        let cs = subst (λ i. c_str i ≡ i) (sym e) task_plain in
        let at_id =
          subst (λ i. as_hash (laws.view s (task_key i)) ≡ some f.fields) (sym e) h.hash in
        let read = get_task-Holds S laws c up mem t s f.fields v cs at_id k in
        (
          subst (λ i. (get_task S c mem i s).0 ≡ ok t) e read,
          Stored-same S laws task_id worker_id f s (get_task S c mem task_id s).1
              (get_task-view S laws c up mem task_id s f.fields task_plain h.hash) h,
        )

    pub update_task_status-Stored :
        (now : ℕ) (status : ℤ) (error_msg : Text) (f : Facts) (s : State)
        → c_str error_msg ≡ error_msg
        → Stored S laws task_id worker_id f s
        → (after : Map Text) × ((field : Text)
            → find field after ≡ updated now status error_msg field (find field f.fields))
          × Stored S laws task_id worker_id
              (record f { fields = after })
              (update_task_status S c now task_id status error_msg s)
    update_task_status-Stored now status error_msg f s ce h =
        let (after, written, finds) =
          update_task_status-find S laws c up now task_id status error_msg s f.fields task_plain ce
            h.hash in
        (
          after,
          finds,
          Stored-Written S laws task_id worker_id f after s
              (update_task_status S c now task_id status error_msg s) written h,
        )

    pub increment_worker_load-Stored :
        (f : Facts) (s : State)
        → f.load + 1 < 2 ^ 63
        → Stored S laws task_id worker_id f s
        → Stored S laws task_id worker_id
            (record f { load = f.load + 1 })
            (increment_worker_load S c worker_id s)
    increment_worker_load-Stored f s lt h =
        let (load, others) =
          increment_worker_load-Counted S laws c up worker_id f.load s worker_plain lt h.worker in
        Stored-LoadIs S laws task_id worker_id f (f.load + 1) s
          (increment_worker_load S c worker_id s) load others h

    pub decrement_worker_load-Stored :
        (f : Facts) (s : State)
        → f.load < 2 ^ 63
        → Stored S laws task_id worker_id f s
        → ((decrement_worker_load S c worker_id s).0 ≡ ok tt)
          × Stored S laws task_id worker_id
              (record f { load = f.load - 1 })
              (decrement_worker_load S c worker_id s).1
    decrement_worker_load-Stored f s lt h =
        let (done, (load, others)) =
          decrement_worker_load-Counted S laws c up worker_id f.load s worker_plain lt h.worker in
        (
          done,
          Stored-LoadIs S laws task_id worker_id f (f.load - 1) s
              (decrement_worker_load S c worker_id s).1 load others h,
        )

    pub get_worker_load-Stored :
        (f : Facts) (s : State)
        → f.load < 2 ^ 31
        → Stored S laws task_id worker_id f s
        → ((get_worker_load S c worker_id s).0 ≡ ok (pos f.load))
          × Stored S laws task_id worker_id f (get_worker_load S c worker_id s).1
    get_worker_load-Stored f s lt h =
        let (number, same) =
          get_worker_load-number S laws c up worker_id f.load s worker_plain lt h.worker in
        (
          number,
          Stored-same S laws task_id worker_id f s (get_worker_load S c worker_id s).1 same h,
        )

    -- pushToPriorityQueue of the id.
    pub push_to_priority_queue-Stored :
        (p : ℤ) (f : Facts) (s : State)
        → Stored S laws task_id worker_id f s
        → ((push_to_priority_queue S c p task_id s).0 ≡ true)
          × Stored S laws task_id worker_id
              (record f { queues = push_spec p task_id f.queues })
              (push_to_priority_queue S c p task_id s).1
    unfolding text_eq
    push_to_priority_queue-Stored p f s h =
        let others : (j : Text)
            → text_eq (queue_of p) j ≡ false
            → laws.view (push_to_priority_queue S c p task_id s).1 j ≡ laws.view s j =
          λ j.
            push_to_priority_queue-others S laws c up p task_id s f.queues j task_plain h.waiting in
        let pushed =
          push_to_priority_queue-push_spec S laws c up p task_id s f.queues task_plain h.waiting in
        (
          pushed.0,
          record {
            hash =
                ap as_hash
                  (others (task_key task_id) (queue_of-apart p b't' (codes "ask:" ++ task_id) refl))
                ∙ h.hash;
            worker =
                others (load_key worker_id)
                  (queue_of-apart p b'w' (codes "orker:load:" ++ worker_id) refl)
                ∙ h.worker;
            waiting = pushed.1;
          },
        )

    -- The key that retryTask leaves for the delay.
    pub set_expiring-Stored :
        (k : Text) (seconds : ℕ) (f : Facts) (s : State)
        → 0 < seconds
        → c_str (b'r' ∷ k) ≡ b'r' ∷ k
        → Stored S laws task_id worker_id f s
        → Stored S laws task_id worker_id f (set_expiring S c (b'r' ∷ k) task_id (pos seconds) s).1
    unfolding set_expiring text_eq
    set_expiring-Stored k seconds f s lt ck h =
        let r = laws.setex_law (b'r' ∷ k) task_id seconds s lt in
        rw (ck, task_plain, request_ran S laws c up r)
          (record {
            hash = ap as_hash (r.others (task_key task_id) refl) ∙ h.hash;
            worker = r.others (load_key worker_id) refl ∙ h.worker;
            waiting = record {
              high_list = ap as_list (r.others (codes "queue:high") refl) ∙ h.waiting.high_list;
              medium_list =
                  ap as_list (r.others (codes "queue:medium") refl) ∙ h.waiting.medium_list;
              low_list = ap as_list (r.others (codes "queue:low") refl) ∙ h.waiting.low_list;
            };
          })

    -- incrementTaskRetry of a task with a retry count in the range of int.
    pub increment_task_retry-Stored :
        (z : ℤ) (f : Facts) (s : State)
        → IsInt z
        → find (codes "retry_count") f.fields ≡ some (to_string z)
        → Stored S laws task_id worker_id f s
        → ((increment_task_retry S c task_id s).0 ≡ ok true)
          × Stored S laws task_id worker_id
              (record f { fields = put (codes "retry_count") (to_string (increment z)) f.fields })
              (increment_task_retry S c task_id s).1
    unfolding increment_task_retry c_str
    increment_task_retry-Stored z f s lt e h =
        let count = codes "retry_count" in
        let g = hash_get-Stored count (to_string z) f s refl e h in
        let s1 = (hash_get S c (task_key task_id) count s).1 in
        let read = stoi-to_string z (omega arith) in
        let next = to_string (increment z) in
        rw (g.0, stoi_not_empty (to_string z) z read, read)
          (
            ap ok (hash_set_ok count next f s1 refl (to_string-c_str (increment z)) g.1),
            hash_set-Stored count next f s1 refl (to_string-c_str (increment z)) g.1,
          )
