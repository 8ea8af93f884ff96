-- ===== src/Dispatcher/Submission.antt =====
-- A task from its submission to the pop that takes it out of its queue.
use my_taskflow_system.Common.{
  ◌≡◌, refl, ap, ◌∙◌, true, false, Option, none, some, List, [], Text, text_eq, c_str, codes,
  Bool-cases, inl, inr,
}
use my_taskflow_system.Common.Int.{ℤ, pos, eq_ℤ}
use my_taskflow_system.Common.Maps.{Map}
use my_taskflow_system.Common.Exec.{Exec, Result, ok}
use my_taskflow_system.Redis.Server.{Server}
use my_taskflow_system.Redis.Client.{RedisClient}
use my_taskflow_system.Redis.Tasks.{
  TaskInfo, Memory, task_key, queue_of, save_task, get_task, push_to_priority_queue,
}
use my_taskflow_system.Redis.Laws.{RedisLaws, as_hash, as_list}
use my_taskflow_system.Redis.Pool.{Shared, RedisPool, get_connection}
use my_taskflow_system.Redis.Claims.{IsValid}
use my_taskflow_system.Redis.Leases.{get_connection-Leased}
use my_taskflow_system.Redis.RoundTrip.{IsTask, get_task-fields, save_task-view}
use my_taskflow_system.Redis.Lists.{Queues, push_spec, pop_spec, Fit, Holds}
use my_taskflow_system.Redis.Queues.{
  pop_from_priority_queue-others, push_to_priority_queue-push_spec, push_to_priority_queue-others,
  pop_from_priority_queue-pop_spec,
}
use my_taskflow_system.Dispatcher.Model.{
  TaskRequest, System, Surroundings, submitted, with_connection, give_back, calls,
}
use my_taskflow_system.Dispatcher.Methods.{submit_on, pop_on, submit_task, pop_next_task}

module _ (S : Server) (laws : RedisLaws S) where
  open S use {State}

  pub with_connection-found :
      {A : Type 0} (o : Surroundings) (a : A) (body : Shared → Exec (System State) A)
      (s : System State) (c : Shared) (p : RedisPool)
      → get_connection o.attempts s.pool ≡ (some c, p)
      → with_connection S o a body s ≡ body c (record s { pool = p })
  unfolding with_connection
  with_connection-found {A = A} o a body s c p e =
      ap
        (λ (r : Option Shared × RedisPool). elim r.0 as (λ _. Result A × System State) [
          | none ↦ (ok a, record s { pool = r.1 })
          | some d ↦ body d (record s { pool = r.1 })
        ])
        e

  pub leased_up :
      (o : Surroundings) (s : System State) (c : Shared) (p : RedisPool)
      → IsValid s.pool
      → get_connection o.attempts s.pool ≡ (some c, p)
      → c.client.connected ≡ true
  leased_up o s c p v e =
      (get_connection-Leased o.attempts s.pool v).is_connected c (ap (λ x. x.0) e)

  pub task_apart : (p : ℤ) (id : Text) → text_eq (queue_of p) (task_key id) ≡ false
  unfolding queue_of text_eq
  task_apart p id = elim (Bool-cases (eq_ℤ p (pos 2))) [
    | inl two ↦ rw two refl
    | inr not_two ↦
        rw not_two
          (elim (Bool-cases (eq_ℤ p (pos 1))) [ inl one ↦ rw one refl | inr other ↦ rw other refl ])
  ]

  pub save_task-Holds :
      (c : RedisClient) (up : c.connected ≡ true) (t : TaskInfo) (s : State) (m : Map Text)
      (q : Queues)
      → as_hash (laws.view s (task_key t.id)) ≡ some m
      → Holds S laws s q
      → Holds S laws (save_task S c t s).1 q
  unfolding text_eq
  save_task-Holds c up t s m q h k =
      let others = (save_task-view S laws c up t s m h).2 in
      record {
        high_list = ap as_list (others (codes "queue:high") refl) ∙ k.high_list;
        medium_list = ap as_list (others (codes "queue:medium") refl) ∙ k.medium_list;
        low_list = ap as_list (others (codes "queue:low") refl) ∙ k.low_list;
      }

  -- submitTask, when the valid pool has a connection for it, returns true; the id is then the last
  -- of the queue of its priority, the other queues are as they were, and getTask reads the task
  -- back, pending and not retried, with what was in memory as its other two times. The id has no
  -- NUL, the numbers are in the range of their types, and its key holds nothing but a hash before.
  pub submit_task-queued :
      (o : Surroundings) (t : TaskRequest) (s : System State) (c : Shared) (p : RedisPool)
      (q : Queues) (m : Map Text) (mem : Memory)
      → IsValid s.pool
      → get_connection o.attempts s.pool ≡ (some c, p)
      → IsTask (submitted o.memory t)
      → c_str t.id ≡ t.id
      → as_hash (laws.view s.redis (task_key t.id)) ≡ some m
      → Holds S laws s.redis q
      → let after = (submit_task S o t s).1 in
        ((submit_task S o t s).0 ≡ ok true)
        × Holds S laws after.redis (push_spec t.priority t.id q)
        × ((get_task S c.client mem t.id after.redis).0 ≡ ok (submitted o.memory t))
  unfolding submit_task submit_on give_back calls
  submit_task-queued o t s c p q m mem v e it cs h k =
      let up = leased_up o s c p v e in
      let info = submitted o.memory t in
      let saved = save_task-view S laws c.client up info s.redis m h in
      let s1 = (save_task S c.client info s.redis).1 in
      let k1 = save_task-Holds c.client up info s.redis m q h k in
      let pushed = push_to_priority_queue-push_spec S laws c.client up t.priority t.id s1 q cs k1 in
      let s2 = (push_to_priority_queue S c.client t.priority t.id s1).1 in
      let kept =
        push_to_priority_queue-others S laws c.client up t.priority t.id s1 q (task_key t.id) cs k1
          (task_apart t.priority t.id) in
      let read =
        get_task-fields S laws c.client up mem info s2 m it cs (ap as_hash kept ∙ saved.1) in
      rw (with_connection-found o false (submit_on S o t) s c p e, saved.0, pushed.0)
        (refl, pushed.1, read)

  -- The keys after submitTask: that of the task holds a hash, and none changes but that and the
  -- queue.
  pub submit_task-keys :
      (o : Surroundings) (t : TaskRequest) (s : System State) (c : Shared) (p : RedisPool)
      (q : Queues) (m : Map Text)
      → IsValid s.pool
      → get_connection o.attempts s.pool ≡ (some c, p)
      → c_str t.id ≡ t.id
      → as_hash (laws.view s.redis (task_key t.id)) ≡ some m
      → Holds S laws s.redis q
      → let after = (submit_task S o t s).1 in
        ((k : Map Text) × (as_hash (laws.view after.redis (task_key t.id)) ≡ some k))
        × ((j : Text)
            → text_eq (task_key t.id) j ≡ false
            → text_eq (queue_of t.priority) j ≡ false
            → laws.view after.redis j ≡ laws.view s.redis j)
  unfolding submit_task submit_on give_back calls
  submit_task-keys o t s c p q m v e cs h k =
      let up = leased_up o s c p v e in
      let info = submitted o.memory t in
      let saved = save_task-view S laws c.client up info s.redis m h in
      let s1 = (save_task S c.client info s.redis).1 in
      let k1 = save_task-Holds c.client up info s.redis m q h k in
      let pushed = push_to_priority_queue-push_spec S laws c.client up t.priority t.id s1 q cs k1 in
      let kept : (j : Text)
          → text_eq (queue_of t.priority) j ≡ false
          → laws.view (push_to_priority_queue S c.client t.priority t.id s1).1 j ≡ laws.view s1 j =
        λ j. push_to_priority_queue-others S laws c.client up t.priority t.id s1 q j cs k1 in
      rw (with_connection-found o false (submit_on S o t) s c p e, saved.0, pushed.0)
        (
          (_, ap as_hash (kept (task_key t.id) (task_apart t.priority t.id)) ∙ saved.1),
          λ j not_task not_queue. kept j not_queue ∙ saved.2 j not_task,
        )

  -- popNextTask, when the valid pool has a connection for it, takes the first id of the first queue
  -- that is not empty, high before medium before low, and returns the empty string exactly when all
  -- three are empty; if no queue holds an empty id.
  pub pop_next_task-pop_spec :
      (o : Surroundings) (s : System State) (c : Shared) (p : RedisPool)
      (high medium low : List Text)
      → let q : Queues = record { high = high; medium = medium; low = low } in
        IsValid s.pool
        → get_connection o.attempts s.pool ≡ (some c, p)
        → Fit q
        → Holds S laws s.redis q
        → ((pop_next_task S o s).0 ≡ ok (pop_spec q).0)
          × Holds S laws (pop_next_task S o s).1.redis (pop_spec q).1
  unfolding pop_next_task pop_on give_back calls
  pop_next_task-pop_spec o s c p high medium low v e f k =
      let up = leased_up o s c p v e in
      let popped =
        pop_from_priority_queue-pop_spec S laws c.client up s.redis high medium low f k in
      rw (with_connection-found o [] (pop_on S o) s c p e) (ap ok popped.0, popped.1)

  -- popNextTask changes no key but the three queues.
  pub pop_next_task-others :
      (o : Surroundings) (s : System State) (c : Shared) (p : RedisPool)
      (high medium low : List Text) (j : Text)
      → let q : Queues = record { high = high; medium = medium; low = low } in
        IsValid s.pool
        → get_connection o.attempts s.pool ≡ (some c, p)
        → Fit q
        → Holds S laws s.redis q
        → ((priority : ℤ) → text_eq (queue_of priority) j ≡ false)
        → laws.view (pop_next_task S o s).1.redis j ≡ laws.view s.redis j
  unfolding pop_next_task pop_on give_back calls
  pop_next_task-others o s c p high medium low j v e f k apart =
      let up = leased_up o s c p v e in
      rw (with_connection-found o [] (pop_on S o) s c p e)
        (pop_from_priority_queue-others S laws c.client up s.redis high medium low j f k apart)
