-- ===== src/Dispatcher/Conservation.antt =====
-- Submissions and pops on scheduler/task_dispatcher.cpp and Redis, against the three queues of the
-- specification.
use mathlib.Core.Quot
use my_taskflow_system.Common.{
  sym, ◌≡◌, refl, ap, ◌∙◌, subst, true, false, some, List, [], ◌∷◌, ◌++◌, Text, text_eq,
  text_eq_iff, c_str, is_empty, Bool-cases, inl, inr,
}
use my_taskflow_system.Common.Bags.{count-append, bag}
use my_taskflow_system.Common.Maps.{Map}
use my_taskflow_system.Common.Exec.{ok}
use my_taskflow_system.Redis.Server.{Server}
use my_taskflow_system.Redis.Tasks.{task_key}
use my_taskflow_system.Redis.Laws.{RedisLaws, as_hash}
use my_taskflow_system.Redis.Pool.{get_connection}
use my_taskflow_system.Redis.Claims.{IsValid}
use my_taskflow_system.Redis.Usable.{usable_in, get_connection-some}
use my_taskflow_system.Redis.RoundTrip.{IsTask}
use my_taskflow_system.Redis.Lists.{Queues, level, push_spec, pop_spec, Fit, Holds}
use my_taskflow_system.Dispatcher.Model.{TaskRequest, System, Surroundings, submitted}
use my_taskflow_system.Dispatcher.Methods.{submit_task, pop_next_task}
use my_taskflow_system.Dispatcher.Connections.{perform, perform-Returned, submits, pops}
use my_taskflow_system.Dispatcher.Submission.{
  submit_task-queued, submit_task-keys, pop_next_task-pop_spec, pop_next_task-others, task_apart,
}
use my_taskflow_system.Dispatcher.Traffic.{
  Traffic, submission, pop, delivered, answered, handed_in, traffic_spec, waiting, traffic,
  Fit-push_at, Fit-pop_lists, Named, traffic_spec-count,
}

-- Every submission has an id, without a NUL, and numbers in the range of their types.
abbrev pub WellFormed : List (Surroundings × Traffic) → Type 0
WellFormed [] = Unit {0}
WellFormed ((o, submission t) ∷ ks) =
    (is_empty t.id ≡ false) × (c_str t.id ≡ t.id) × IsTask (submitted o.memory t) × WellFormed ks
WellFormed ((o, pop) ∷ ks) = WellFormed ks

WellFormed-Named : (ks : List (Surroundings × Traffic)) → WellFormed ks → Named ks
WellFormed-Named [] w = tt
WellFormed-Named ((o, submission t) ∷ ks) w = (w.0, WellFormed-Named ks w.3)
WellFormed-Named ((o, pop) ∷ ks) w = WellFormed-Named ks w

module _ (S : Server) (laws : RedisLaws S) where
  open S use {State}

  -- A system that serves the queues: it can get connections, Redis holds the queues, and the key of
  -- every task holds nothing but a hash.
  pub record Serves (s : System State) (q : Queues) : Type 0 where
    pub valid : IsValid s.pool
    pub usable : usable_in s.pool ≡ true
    pub fit : Fit q
    pub queued : Holds S laws s.redis q
    pub hashes :
        (task_id : Text)
        → (m : Map Text) × (as_hash (laws.view s.redis (task_key task_id)) ≡ some m)

  submit_task-Serves :
      (o : Surroundings) (t : TaskRequest) (s : System State) (q : Queues)
      → is_empty t.id ≡ false
      → c_str t.id ≡ t.id
      → IsTask (submitted o.memory t)
      → Serves s q
      → Serves (submit_task S o t s).1 (push_spec t.priority t.id q)
  unfolding perform
  submit_task-Serves o t s q named plain it h =
      let (c, e) = get_connection-some o.attempts s.pool h.usable in
      let p = (get_connection o.attempts s.pool).1 in
      let (m, old) = h.hashes t.id in
      let done = submit_task-queued S laws o t s c p q m o.memory h.valid e it plain old h.queued in
      let keys = submit_task-keys S laws o t s c p q m h.valid e plain old h.queued in
      let r = perform-Returned S (submits t) o s h.valid in
      let s' = (submit_task S o t s).1 in
      record {
        valid = r.valid;
        usable = r.stays_usable true done.0 h.usable;
        fit = Fit-push_at t.id (level t.priority) q named h.fit;
        queued = done.1;
        hashes = λ i. elim (Bool-cases (text_eq (task_key t.id) (task_key i))) [
          | inl same ↦
              subst (λ k. (n : Map Text) × (as_hash (laws.view s'.redis k) ≡ some n))
                ((text_eq_iff (task_key t.id) (task_key i)).0 same) keys.0
          | inr other ↦
              let (n, before) = h.hashes i in
              (n, ap as_hash (keys.1 (task_key i) other (task_apart S laws t.priority i)) ∙ before)
        ];
      }

  pop_next_task-Serves :
      (o : Surroundings) (s : System State) (q : Queues)
      → Serves s q
      → ((pop_next_task S o s).0 ≡ ok (pop_spec q).0)
        × Serves (pop_next_task S o s).1 (pop_spec q).1
  unfolding perform
  pop_next_task-Serves o s q h =
      let (c, e) = get_connection-some o.attempts s.pool h.usable in
      let p = (get_connection o.attempts s.pool).1 in
      let done =
        pop_next_task-pop_spec S laws o s c p q.high q.medium q.low h.valid e h.fit h.queued in
      let r = perform-Returned S pops o s h.valid in
      (
        done.0,
        record {
          valid = r.valid;
          usable = r.stays_usable (pop_spec q).0 done.0 h.usable;
          fit = Fit-pop_lists q.high q.medium q.low h.fit;
          queued = done.1;
          hashes = λ i.
              let (n, before) = h.hashes i in
              let kept =
                pop_next_task-others S laws o s c p q.high q.medium q.low (task_key i) h.valid e
                  h.fit h.queued (λ z. task_apart S laws z i) in
              (n, ap as_hash kept ∙ before);
        },
      )

  -- However submissions and pops follow one another, one call after the other, the dispatcher on
  -- Redis delivers the ids that the three queues of the specification do, in the same order, and
  -- goes on to serve the queues that the specification ends with. From a system that serves the
  -- queues (a valid pool with a free connected client, queues in Redis without an empty id, and
  -- nothing but hashes at the keys of tasks); every submission has an id without a NUL that is not
  -- empty, and numbers in the range of their types.
  pub traffic-traffic_spec :
      (ks : List (Surroundings × Traffic)) (s : System State) (q : Queues)
      → WellFormed ks
      → Serves s q
      → ((traffic S ks s).0 ≡ (traffic_spec ks q).0)
        × Serves (traffic S ks s).1 (traffic_spec ks q).1
  unfolding traffic
  traffic-traffic_spec [] s q w h = (refl, h)
  traffic-traffic_spec ((o, submission t) ∷ ks) s q w h =
      traffic-traffic_spec ks (submit_task S o t s).1 (push_spec t.priority t.id q) w.3
        (submit_task-Serves o t s q w.0 w.1 w.2 h)
  traffic-traffic_spec ((o, pop) ∷ ks) s q w h =
      let popped = pop_next_task-Serves o s q h in
      let rest = traffic-traffic_spec ks (pop_next_task S o s).1 (pop_spec q).1 w popped.1 in
      (
        ap (λ r. answered r (traffic S ks (pop_next_task S o s).1).0) popped.0
            ∙ ap (delivered (pop_spec q).0) rest.0,
        rest.1,
      )

  -- No task is lost and none is doubled: up to order, the ids that waited before and those that are
  -- submitted are the ids that are delivered and those that wait in Redis afterwards, however
  -- submissions and pops follow one another, one call after the other. From a system that serves
  -- the queues (a valid pool with a free connected client, queues in Redis without an empty id, and
  -- nothing but hashes at the keys of tasks); every submission has an id without a NUL that is not
  -- empty, and numbers in the range of their types.
  pub traffic_conserves :
      (ks : List (Surroundings × Traffic)) (s : System State) (q : Queues)
      → WellFormed ks
      → Serves s q
      → (after : Queues) × Serves (traffic S ks s).1 after
        × (bag (waiting q ++ handed_in ks) ≡ bag ((traffic S ks s).0 ++ waiting after))
  traffic_conserves ks s q w h =
      let run = traffic-traffic_spec ks s q w h in
      let after = (traffic_spec ks q).1 in
      let same = λ (a : Text).
        count-append a (waiting q) (handed_in ks)
        ∙ traffic_spec-count a ks q (WellFormed-Named ks w) h.fit
        ∙ sym (count-append a (traffic_spec ks q).0 (waiting after)) in
      (after, run.1, Quot.sound same ∙ ap (λ ids. bag (ids ++ waiting after)) (sym run.0))
