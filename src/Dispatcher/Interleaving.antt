-- ===== src/Dispatcher/Interleaving.antt =====
-- submitTask, popNextTask and assignTaskToWorker of scheduler/task_dispatcher.cpp on several
-- connections at once: every command is one step, and the steps of different calls come in any order.
use my_taskflow_system.Common.{
  ◌≡◌, refl, ap, ◌∙◌, subst, true, some, List, [], ◌∷◌, ◌++◌, Text, text_eq, text_eq_iff, c_str,
  codes, All, Bool-cases, inl, inr, drop,
}
use my_taskflow_system.Common.Maps.{Map}
use my_taskflow_system.Redis.Server.{Server}
use my_taskflow_system.Redis.Client.{hash_set, RedisClient, pop_left}
use my_taskflow_system.Redis.Tasks.{
  TaskInfo, task_key, task_fields, save_task, push_to_priority_queue,
}
use my_taskflow_system.Redis.Laws.{RedisLaws, as_hash, enter}
use my_taskflow_system.Redis.RoundTrip.{IsTask, Holds-enter, save_task-view, get_task-Holds}
use my_taskflow_system.Redis.RoundTrip
use my_taskflow_system.Redis.Lists.{Queues, Level, is_high, is_medium, is_low, Holds}
use my_taskflow_system.Dispatcher.Marks.{Mark, mark_field, mark_value, IsInTime}
use my_taskflow_system.Dispatcher.Submission.{save_task-Holds}

-- The server, and the tasks that calls of submitTask have saved and not pushed yet.
pub record Progress (State : Type 0) : Type 0 where
  pub redis : State
  pub saved : List TaskInfo

abbrev pub queue_key : Level → Text
queue_key is_high = codes "queue:high"
queue_key is_medium = codes "queue:medium"
queue_key is_low = codes "queue:low"

module _ (S : Server) where
  open S use {State}

  -- One command of a call: the two of submitTask, the pop of one queue of popNextTask, and one of
  -- the fields that assignTaskToWorker writes.
  pub data Step : Progress State → Progress State → Type 0 where
    saves :
        (c : RedisClient) (t : TaskInfo) (p : Progress State)
        → c.connected ≡ true
        → IsTask t
        → c_str t.id ≡ t.id
        → Step p (record { redis = (save_task S c t p.redis).1; saved = t ∷ p.saved })
    pushes :
        (c : RedisClient) (t : TaskInfo) (before after : List TaskInfo) (s : State)
        → c.connected ≡ true
        → Step
            (record { redis = s; saved = before ++ t ∷ after })
            (record {
              redis = (push_to_priority_queue S c t.priority t.id s).1;
              saved = before ++ after;
            })
    pops :
        (c : RedisClient) (l : Level) (p : Progress State)
        → c.connected ≡ true
        → Step p (record p { redis = (pop_left S c (queue_key l) p.redis).1 })
    marks :
        (c : RedisClient) (k : Mark) (task_id : Text) (p : Progress State)
        → c.connected ≡ true
        → c_str task_id ≡ task_id
        → c_str (mark_value k) ≡ mark_value k
        → IsInTime k
        → Step p (record p {
          redis = (hash_set S c (task_key task_id) (mark_field k) (mark_value k) p.redis).1;
        })

  -- Any number of steps.
  pub data Steps : Progress State → Progress State → Type 0 where
    none_left : {p : Progress State} → Steps p p
    first : {p q r : Progress State} → Step p q → Steps q r → Steps p r

pub same_id : (a b : Text) → text_eq (task_key a) (task_key b) ≡ true → a ≡ b
same_id a b e = ap (drop 5) ((text_eq_iff (task_key a) (task_key b)).0 e)

module _ (S : Server) (laws : RedisLaws S) where
  open S use {State}

  -- A task that Redis holds whole.
  pub record IsKept (s : State) (t : TaskInfo) : Type 0 where
    pub in_range : IsTask t
    pub plain : c_str t.id ≡ t.id
    pub fields : Map Text
    pub hash : as_hash (laws.view s (task_key t.id)) ≡ some fields
    pub held : RoundTrip.Holds fields t

  abbrev pub IsKnown : State → Text → Type 0
  IsKnown s task_id = (t : TaskInfo) × (t.id ≡ task_id) × IsKept s t

  -- The server holds the queues, and the task of every id that waits and of every call under way;
  -- the key of a task holds nothing but a hash.
  pub record Sound (p : Progress State) (q : Queues) : Type 0 where
    pub queued : Holds S laws p.redis q
    pub hashes :
        (task_id : Text)
        → (m : Map Text) × (as_hash (laws.view p.redis (task_key task_id)) ≡ some m)
    pub high_known : All (IsKnown p.redis) q.high
    pub medium_known : All (IsKnown p.redis) q.medium
    pub low_known : All (IsKnown p.redis) q.low
    pub under_way : All (λ (t : TaskInfo). IsKnown p.redis t.id) p.saved

  -- A command that leaves every task's hash as it was.
  pub IsKept-same :
      (s s' : State) (t : TaskInfo)
      → laws.view s' (task_key t.id) ≡ laws.view s (task_key t.id)
      → IsKept s t
      → IsKept s' t
  IsKept-same s s' t e k = record {
    in_range = k.in_range;
    plain = k.plain;
    fields = k.fields;
    hash = ap as_hash e ∙ k.hash;
    held = k.held;
  }

  pub ids-IsKnown :
      (s s' : State) (ts : List TaskInfo)
      → ((u : Text) → IsKnown s u → IsKnown s' u)
      → All (λ (t : TaskInfo). IsKnown s t.id) ts
      → All (λ (t : TaskInfo). IsKnown s' t.id) ts
  ids-IsKnown s s' [] e h = tt
  ids-IsKnown s s' (t ∷ ts) e (k, ks) = (e t.id k, ids-IsKnown s s' ts e ks)

  pub All-IsKnown :
      (s s' : State) (xs : List Text)
      → ((u : Text) → IsKnown s u → IsKnown s' u)
      → All (IsKnown s) xs
      → All (IsKnown s') xs
  All-IsKnown s s' [] e h = tt
  All-IsKnown s s' (x ∷ xs) e (k, ks) = (e x k, All-IsKnown s s' xs e ks)

  pub IsKnown-same :
      (s s' : State)
      → ((i : Text) → laws.view s' (task_key i) ≡ laws.view s (task_key i))
      → (u : Text) → IsKnown s u
      → IsKnown s' u
  IsKnown-same s s' e u (t, same, k) = (t, same, IsKept-same s s' t (e t.id) k)

  -- saveTask keeps what is known, and its own task.
  save_task-IsKept :
      (c : RedisClient) (t : TaskInfo) (s : State) (m : Map Text)
      → c.connected ≡ true
      → IsTask t
      → c_str t.id ≡ t.id
      → as_hash (laws.view s (task_key t.id)) ≡ some m
      → IsKept (save_task S c t s).1 t
  save_task-IsKept c t s m up it plain h = record {
    in_range = it;
    plain = plain;
    fields = enter (task_fields t) m;
    hash = (save_task-view S laws c up t s m h).1;
    held = Holds-enter t m;
  }

  save_task-IsKnown :
      (c : RedisClient) (t : TaskInfo) (s : State) (m : Map Text)
      → c.connected ≡ true
      → IsTask t
      → c_str t.id ≡ t.id
      → as_hash (laws.view s (task_key t.id)) ≡ some m
      → (u : Text) → IsKnown s u
      → IsKnown (save_task S c t s).1 u
  save_task-IsKnown c t s m up it plain h u (w, same, k) =
      elim (Bool-cases (text_eq (task_key t.id) (task_key w.id))) [
        | inl equal ↦ (t, same_id t.id w.id equal ∙ same, save_task-IsKept c t s m up it plain h)
        | inr other ↦
            let kept = (save_task-view S laws c up t s m h).2 (task_key w.id) other in
            (w, same, IsKept-same s (save_task S c t s).1 w kept k)
      ]

  save_task-hashes :
      (c : RedisClient) (t : TaskInfo) (s : State)
      → c.connected ≡ true
      → ((i : Text) → (m : Map Text) × (as_hash (laws.view s (task_key i)) ≡ some m))
      → (i : Text)
      → (m : Map Text) × (as_hash (laws.view (save_task S c t s).1 (task_key i)) ≡ some m)
  save_task-hashes c t s up h i =
      let s' = (save_task S c t s).1 in
      let view = save_task-view S laws c up t s (h t.id).0 (h t.id).1 in
      elim (Bool-cases (text_eq (task_key t.id) (task_key i))) [
        | inl equal ↦
            subst (λ k. (m : Map Text) × (as_hash (laws.view s' k) ≡ some m))
              ((text_eq_iff (task_key t.id) (task_key i)).0 equal) (_, view.1)
        | inr other ↦ ((h i).0, ap as_hash (view.2 (task_key i) other) ∙ (h i).1)
      ]

  pub saves-Sound :
      (c : RedisClient) (t : TaskInfo) (p : Progress State) (q : Queues)
      → c.connected ≡ true
      → IsTask t
      → c_str t.id ≡ t.id
      → Sound p q
      → Sound (record { redis = (save_task S c t p.redis).1; saved = t ∷ p.saved }) q
  saves-Sound c t p q up it plain h =
      let (m, old) = h.hashes t.id in
      let s' = (save_task S c t p.redis).1 in
      let keep = save_task-IsKnown c t p.redis m up it plain old in
      record {
        queued = save_task-Holds S laws c up t p.redis m q old h.queued;
        hashes = save_task-hashes c t p.redis up h.hashes;
        high_known = All-IsKnown p.redis s' q.high keep h.high_known;
        medium_known = All-IsKnown p.redis s' q.medium keep h.medium_known;
        low_known = All-IsKnown p.redis s' q.low keep h.low_known;
        under_way = (
          (t, refl, save_task-IsKept c t p.redis m up it plain old),
          ids-IsKnown p.redis s' p.saved keep h.under_way,
        );
      }
