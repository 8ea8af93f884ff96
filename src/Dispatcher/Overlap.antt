-- ===== src/Dispatcher/Overlap.antt =====
-- Calls of submitTask, popNextTask and assignTaskToWorker of scheduler/task_dispatcher.cpp that
-- overlap.
use my_taskflow_system.Common.{
  ◌≡◌, refl, ap, ◌∙◌, subst, true, false, some, List, [], ◌∷◌, ◌++◌, Text, text_eq, c_str, codes,
  All, All-append,
}
use my_taskflow_system.Common.Maps.{Map}
use my_taskflow_system.Common.Exec.{ok}
use my_taskflow_system.Redis.Server.{Server}
use my_taskflow_system.Redis.Client.{RedisClient, pop_left}
use my_taskflow_system.Redis.Tasks.{TaskInfo, Memory, task_key, get_task, push_to_priority_queue}
use my_taskflow_system.Redis.Laws.{RedisLaws, as_hash, as_list}
use my_taskflow_system.Redis.RoundTrip.{get_task-Holds}
use my_taskflow_system.Redis.Lists.{
  Queues, Level, is_high, is_medium, is_low, level, push_at, push_spec, Holds, pop_left-view,
  pop_left-empty,
}
use my_taskflow_system.Redis.Queues.{
  push_to_priority_queue-push_spec, push_to_priority_queue-others,
}
use my_taskflow_system.Dispatcher.Submission.{task_apart}
use my_taskflow_system.Dispatcher.Marking.{marks-Sound}
use my_taskflow_system.Dispatcher.Interleaving.{
  marks, Progress, queue_key, Step, Steps, saves, pushes, pops, none_left, first, IsKnown, Sound,
  All-IsKnown, ids-IsKnown, IsKnown-same, saves-Sound,
}

abbrev rest_of : List Text → List Text
rest_of [] = []
rest_of (x ∷ xs) = xs

-- The queues after a pop of one of them.
abbrev pop_at : Level → Queues → Queues
pop_at is_high q = record q { high = rest_of q.high }
pop_at is_medium q = record q { medium = rest_of q.medium }
pop_at is_low q = record q { low = rest_of q.low }

All-middle :
    {A : Type 0} (P : A → Type 0) (xs : List A) (y : A) (ys : List A)
    → All P (xs ++ y ∷ ys)
    → P y × All P (xs ++ ys)
All-middle P [] y ys h = h
All-middle P (x ∷ xs) y ys (k, h) =
    let (here, others) = All-middle P xs y ys h in (here, (k, others))

All-rest_of : (P : Text → Type 0) (xs : List Text) → All P xs → All P (rest_of xs)
All-rest_of P [] h = tt
All-rest_of P (x ∷ xs) h = h.1

module _ (S : Server) (laws : RedisLaws S) where
  open S use {State}

  pop_left-rest_of :
      (c : RedisClient) (k : Text) (s : State) (xs : List Text)
      → c.connected ≡ true
      → c_str k ≡ k
      → as_list (laws.view s k) ≡ some xs
      → (as_list (laws.view (pop_left S c k s).1 k) ≡ some (rest_of xs))
        × ((j : Text) → text_eq k j ≡ false → laws.view (pop_left S c k s).1 j ≡ laws.view s j)
  pop_left-rest_of c k s [] up ck h = let v = pop_left-empty S laws c up k s ck h in (v.1, v.2)
  pop_left-rest_of c k s (x ∷ xs) up ck h =
      let v = pop_left-view S laws c up k x s xs ck h in (v.1, v.2)

  pop_left-pop_at :
      (c : RedisClient) (l : Level) (s : State) (q : Queues)
      → c.connected ≡ true
      → Holds S laws s q
      → Holds S laws (pop_left S c (queue_key l) s).1 (pop_at l q)
        × ((i : Text)
            → laws.view (pop_left S c (queue_key l) s).1 (task_key i) ≡ laws.view s (task_key i))
  unfolding text_eq c_str
  pop_left-pop_at c is_high s q up h =
      let v = pop_left-rest_of c (codes "queue:high") s q.high up refl h.high_list in
      (
        record {
          high_list = v.0;
          medium_list = ap as_list (v.1 _ refl) ∙ h.medium_list;
          low_list = ap as_list (v.1 _ refl) ∙ h.low_list;
        },
        λ i. v.1 (task_key i) refl,
      )
  pop_left-pop_at c is_medium s q up h =
      let v = pop_left-rest_of c (codes "queue:medium") s q.medium up refl h.medium_list in
      (
        record {
          high_list = ap as_list (v.1 _ refl) ∙ h.high_list;
          medium_list = v.0;
          low_list = ap as_list (v.1 _ refl) ∙ h.low_list;
        },
        λ i. v.1 (task_key i) refl,
      )
  pop_left-pop_at c is_low s q up h =
      let v = pop_left-rest_of c (codes "queue:low") s q.low up refl h.low_list in
      (
        record {
          high_list = ap as_list (v.1 _ refl) ∙ h.high_list;
          medium_list = ap as_list (v.1 _ refl) ∙ h.medium_list;
          low_list = v.0;
        },
        λ i. v.1 (task_key i) refl,
      )

  hashes-same :
      (s s' : State)
      → ((i : Text) → laws.view s' (task_key i) ≡ laws.view s (task_key i))
      → ((i : Text) → (m : Map Text) × (as_hash (laws.view s (task_key i)) ≡ some m))
      → (i : Text) → (m : Map Text) × (as_hash (laws.view s' (task_key i)) ≡ some m)
  hashes-same s s' same h i = ((h i).0, ap as_hash (same i) ∙ (h i).1)

  -- The queues after a pop hold known ids, wherever it was.
  pops-Sound :
      (c : RedisClient) (l : Level) (p : Progress State) (q : Queues)
      → c.connected ≡ true
      → Sound S laws p q
      → Sound S laws (record p { redis = (pop_left S c (queue_key l) p.redis).1 }) (pop_at l q)
  pops-Sound c l p q up h =
      let s' = (pop_left S c (queue_key l) p.redis).1 in
      let v = pop_left-pop_at c l p.redis q up h.queued in
      let keep = IsKnown-same S laws p.redis s' v.1 in
      let (high, medium, low) = split l in
      record {
        queued = v.0;
        hashes = hashes-same p.redis s' v.1 h.hashes;
        high_known = All-IsKnown S laws p.redis s' (pop_at l q).high keep high;
        medium_known = All-IsKnown S laws p.redis s' (pop_at l q).medium keep medium;
        low_known = All-IsKnown S laws p.redis s' (pop_at l q).low keep low;
        under_way = ids-IsKnown S laws p.redis s' p.saved keep h.under_way;
      }
    where
      split :
          (k : Level)
          → All (IsKnown S laws p.redis) (pop_at k q).high
            × All (IsKnown S laws p.redis) (pop_at k q).medium
            × All (IsKnown S laws p.redis) (pop_at k q).low
      split is_high = (All-rest_of _ q.high h.high_known, h.medium_known, h.low_known)
      split is_medium = (h.high_known, All-rest_of _ q.medium h.medium_known, h.low_known)
      split is_low = (h.high_known, h.medium_known, All-rest_of _ q.low h.low_known)

  pushes-Sound :
      (c : RedisClient) (t : TaskInfo) (before after : List TaskInfo) (s : State) (q : Queues)
      → c.connected ≡ true
      → Sound S laws (record { redis = s; saved = before ++ t ∷ after }) q
      → Sound S laws
          (record {
            redis = (push_to_priority_queue S c t.priority t.id s).1;
            saved = before ++ after;
          })
          (push_spec t.priority t.id q)
  pushes-Sound c t before after s q up h =
      let s' = (push_to_priority_queue S c t.priority t.id s).1 in
      let ((w, named, k), others) = All-middle _ before t after h.under_way in
      let plain = subst (λ i. c_str i ≡ i) named k.plain in
      let pushed =
        push_to_priority_queue-push_spec S laws c up t.priority t.id s q plain h.queued in
      let same : (i : Text) → laws.view s' (task_key i) ≡ laws.view s (task_key i) = λ i.
        push_to_priority_queue-others S laws c up t.priority t.id s q (task_key i) plain h.queued
          (task_apart S laws t.priority i) in
      let keep = IsKnown-same S laws s s' same in
      let added = add (level t.priority) (w, named, k) in
      let q' = push_spec t.priority t.id q in
      record {
        queued = pushed.1;
        hashes = hashes-same s s' same h.hashes;
        high_known = All-IsKnown S laws s s' q'.high keep added.0;
        medium_known = All-IsKnown S laws s s' q'.medium keep added.1;
        low_known = All-IsKnown S laws s s' q'.low keep added.2;
        under_way = ids-IsKnown S laws s s' (before ++ after) keep others;
      }
    where
      add :
          (l : Level)
          → IsKnown S laws s t.id
          → All (IsKnown S laws s) (push_at l t.id q).high
            × All (IsKnown S laws s) (push_at l t.id q).medium
            × All (IsKnown S laws s) (push_at l t.id q).low
      add is_high k =
          (All-append _ q.high (t.id ∷ []) h.high_known (k, tt), h.medium_known, h.low_known)
      add is_medium k =
          (h.high_known, All-append _ q.medium (t.id ∷ []) h.medium_known (k, tt), h.low_known)
      add is_low k =
          (h.high_known, h.medium_known, All-append _ q.low (t.id ∷ []) h.low_known (k, tt))

  Step-Sound :
      {p r : Progress State} (q : Queues)
      → Step S p r
      → Sound S laws p q
      → (after : Queues) × Sound S laws r after
  Step-Sound q (saves c t p up it plain) h = (q, saves-Sound S laws c t p q up it plain h)
  Step-Sound q (pushes c t before after s up) h =
      (push_spec t.priority t.id q, pushes-Sound c t before after s q up h)
  Step-Sound q (pops c l p up) h = (pop_at l q, pops-Sound c l p q up h)
  Step-Sound q (marks c k task_id p up plain value_plain lt) h =
      (q, marks-Sound S laws c up k task_id plain value_plain p q lt h)

  Steps-Sound :
      {p r : Progress State} (q : Queues)
      → Steps S p r
      → Sound S laws p q
      → (after : Queues) × Sound S laws r after
  Steps-Sound q none_left h = (q, h)
  Steps-Sound q (first step rest) h =
      let (middle, k) = Step-Sound q step h in Steps-Sound middle rest k

  -- Every connected client that asks for the task gets one, with its id.
  abbrev pub IsReadable : State → Text → Type 0
  IsReadable s task_id =
      (t : TaskInfo) × (t.id ≡ task_id)
      × ((c : RedisClient) (mem : Memory)
          → c.connected ≡ true
          → (get_task S c mem task_id s).0 ≡ ok t)

  IsKnown-IsReadable :
      (s : State) (task_id : Text) → IsKnown S laws s task_id → IsReadable s task_id
  IsKnown-IsReadable s task_id (t, same, k) = (
    t,
    same,
    λ c mem up.
        subst (λ i. (get_task S c mem i s).0 ≡ ok t) same
          (get_task-Holds S laws c up mem t s k.fields k.in_range k.plain k.hash k.held),
  )

  All-IsReadable : (s : State) (xs : List Text) → All (IsKnown S laws s) xs → All (IsReadable s) xs
  All-IsReadable s [] h = tt
  All-IsReadable s (x ∷ xs) h = (IsKnown-IsReadable s x h.0, All-IsReadable s xs h.1)

  -- However calls of submitTask, of popNextTask and the writes of assignTaskToWorker overlap,
  -- command by command and on any number of connections, Redis goes on to hold three queues, and
  -- for every id that waits in one of them getTask reads a task with that id: submitTask saves a
  -- task before it pushes its id, and neither a pop nor a written field undoes that. At the start
  -- Redis holds three queues, the tasks of the ids in them and of the calls under way, and nothing
  -- but hashes at the keys of tasks; the texts have no NUL, and the numbers and clocks are in the
  -- range of their types.
  pub steps_keep_tasks :
      {p r : Progress State} (q : Queues)
      → Steps S p r
      → Sound S laws p q
      → (after : Queues) × Holds S laws r.redis after
        × All (IsReadable r.redis) after.high
        × All (IsReadable r.redis) after.medium
        × All (IsReadable r.redis) after.low
  steps_keep_tasks {r = r} q steps h =
      let (after, k) = Steps-Sound q steps h in
      (
        after,
        k.queued,
        All-IsReadable r.redis after.high k.high_known,
        All-IsReadable r.redis after.medium k.medium_known,
        All-IsReadable r.redis after.low k.low_known,
      )
