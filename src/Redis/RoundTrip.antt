-- ===== src/Redis/RoundTrip.antt =====
-- A task that is saved reads back as it was.
use my_taskflow_system.Common.{
  text_eq, ◌≡◌, refl, ap, ◌∙◌, true, false, some, [], ◌∷◌, ◌++◌, Text, text_eq, text_ltb, c_str,
  codes, arith,
}
use my_taskflow_system.Common.Int.{ℤ, pos, negsuc}
use my_taskflow_system.Common.Maps.{Map, find, put, find-put}
use my_taskflow_system.Common.Exec.{ok}
use my_taskflow_system.Common.Decimal.{to_string, stoll-to_string, IsInt, IsInt64}
use my_taskflow_system.Redis.Server.{Server, Reply}
use my_taskflow_system.Redis.Client.{RedisClient, request, pairs_from, hash_get_all, hash_set_all}
use my_taskflow_system.Redis.Tasks.{
  TaskInfo, Memory, task_key, task_fields, parse_task, read_fields, get_int, get_field, get_task,
  save_task, to_int,
}
use my_taskflow_system.Redis.Laws.{same_everywhere, Value, as_hash, enter, flatten, Ran, RedisLaws}

pairs-flatten : (entries m : Map Text) → pairs_from (flatten entries) m ≡ enter entries m
pairs-flatten [] m = refl
pairs-flatten ((k, v) ∷ entries) m = pairs-flatten entries (put k v m)

-- The numbers of a task in the range of their types, as in the struct.
pub record IsTask (t : TaskInfo) : Type 0 where
  pub type_int : IsInt t.type
  pub priority_int : IsInt t.priority
  pub created_int : IsInt64 t.created_at
  pub started_int : IsInt64 t.started_at
  pub finished_int : IsInt64 t.finished_at
  pub status_int : IsInt t.status
  pub retry_int : IsInt t.retry_count

to_int_id : (z : ℤ) → IsInt z → to_int z ≡ z
to_int_id (pos n) h = ground arith
to_int_id (negsuc n) h = ground arith

-- The fields that saveTask writes.
abbrev pub Holds : Map Text → TaskInfo → Type 0
Holds m t =
    (find (codes "type") m ≡ some (to_string t.type))
    × (find (codes "priority") m ≡ some (to_string t.priority))
    × (find (codes "data") m ≡ some t.payload)
    × (find (codes "created_at") m ≡ some (to_string t.created_at))
    × (find (codes "started_at") m ≡ some (to_string t.started_at))
    × (find (codes "finished_at") m ≡ some (to_string t.finished_at))
    × (find (codes "status") m ≡ some (to_string t.status))
    × (find (codes "retry_count") m ≡ some (to_string t.retry_count))
    × (find (codes "error_message") m ≡ some t.error_message)
    × (find (codes "result") m ≡ some t.result)

Holds-task_fields : (t : TaskInfo) → Holds (task_fields t) t
unfolding task_fields find put text_eq text_ltb
Holds-task_fields t = (refl, refl, refl, refl, refl, refl, refl, refl, refl, refl)

pub Holds-enter : (t : TaskInfo) (m : Map Text) → Holds (enter (task_fields t) m) t
unfolding task_fields put text_eq text_ltb
Holds-enter t m = (
  simp find-put,
  simp find-put,
  simp find-put,
  simp find-put,
  simp find-put,
  simp find-put,
  simp find-put,
  simp find-put,
  simp find-put,
  simp find-put,
)

Holds-congr :
    (t : TaskInfo) (m n : Map Text) → ((f : Text) → find f m ≡ find f n) → Holds n t → Holds m t
Holds-congr t m n e h = (
  e _ ∙ h.0,
  e _ ∙ h.1,
  e _ ∙ h.2,
  e _ ∙ h.3,
  e _ ∙ h.4,
  e _ ∙ h.5,
  e _ ∙ h.6,
  e _ ∙ h.7,
  e _ ∙ h.8,
  e _ ∙ h.9,
)

read_int :
    (m : Map Text) (name : Text) (z : ℤ)
    → find name m ≡ some (to_string z)
    → IsInt64 z
    → get_int m name ≡ ok z
unfolding get_int
read_int m name z e h = rw (e, get_int) (stoll-to_string z h)

read_text : (m : Map Text) (name v : Text) → find name m ≡ some v → get_field m name ≡ v
unfolding get_field
read_text m name v e = rw (e, get_field)

parse_task-Holds :
    {S : Type 0} (s : S) (m : Map Text) (t : TaskInfo)
    → IsTask t
    → Holds m t
    → parse_task t.id m s ≡ (ok t, s)
unfolding parse_task
parse_task-Holds s m t v h =
    rw
      (
        read_int m (codes "type") t.type h.0 (omega arith),
        read_int m (codes "priority") t.priority h.1 (omega arith),
        read_int m (codes "created_at") t.created_at h.3 v.created_int,
        read_int m (codes "started_at") t.started_at h.4 v.started_int,
        read_int m (codes "finished_at") t.finished_at h.5 v.finished_int,
        read_int m (codes "status") t.status h.6 (omega arith),
        read_int m (codes "retry_count") t.retry_count h.7 (omega arith),
        read_text m (codes "data") t.payload h.2,
        read_text m (codes "error_message") t.error_message h.8,
        read_text m (codes "result") t.result h.9,
      )
      (ground (
        arith,
        to_int_id t.type v.type_int,
        to_int_id t.priority v.priority_int,
        to_int_id t.status v.status_int,
        to_int_id t.retry_count v.retry_int,
      ))

read_fields-state :
    {S : Type 0} (mem : Memory) (id : Text) (m : Map Text) (s : S) → (read_fields mem id m s).1 ≡ s
unfolding read_fields parse_task
read_fields-state mem id [] s = refl
read_fields-state mem id (f ∷ m) s = ground arith

read_fields-some :
    {S : Type 0} (mem : Memory) (id k v : Text) (m : Map Text) (s : S)
    → find k m ≡ some v
    → read_fields mem id m s ≡ parse_task id m s
unfolding read_fields find
read_fields-some mem id k v [] s e = cc
read_fields-some mem id k v (f ∷ m) s e = refl

module _ (S : Server) (laws : RedisLaws S) (c : RedisClient) (up : c.connected ≡ true) where
  open S use {State}

  pub request_ran :
      {cmd : _} {s : State} {k : Text} {P : Reply → Value → Type 0} (r : Ran S laws.view cmd s k P)
      → request S c cmd s ≡ (some r.reply, r.state)
  unfolding request
  request_ran r = rw up r.ran

  -- The hash of a key, read back by hgetall.
  pub hash_get_all-view :
      (k : Text) (s : State) (m : Map Text)
      → c_str k ≡ k
      → as_hash (laws.view s k) ≡ some m
      → ((f : Text) → find f (hash_get_all S c k s).0 ≡ find f m)
        × (laws.view (hash_get_all S c k s).1 k ≡ laws.view s k)
        × ((j : Text) → text_eq k j ≡ false → laws.view (hash_get_all S c k s).1 j ≡ laws.view s j)
  unfolding hash_get_all
  hash_get_all-view k s m cs h =
      let r = laws.hgetall_law k s m h in
      let (entries, flat, finds) = r.described.1 in
      rw (cs, request_ran r)
        ((λ f. rw (r.described.0, flat, pairs-flatten) (finds f)), r.described.2, r.others)

  pub save_task-view :
      (t : TaskInfo) (s : State) (m : Map Text)
      → as_hash (laws.view s (task_key t.id)) ≡ some m
      → ((save_task S c t s).0 ≡ true)
        × (as_hash (laws.view (save_task S c t s).1 (task_key t.id))
            ≡ some (enter (task_fields t) m))
        × ((j : Text)
            → text_eq (task_key t.id) j ≡ false
            → laws.view (save_task S c t s).1 j ≡ laws.view s j)
  unfolding save_task hash_set_all put text_eq text_ltb
  save_task-view t s m h =
      let r = laws.hmset_law (task_key t.id) (task_fields t) s m h in
      rw (request_ran r) (rw r.described.0, ap as_hash r.described.1, r.others)

  pub get_task-view :
      (mem : Memory) (task_id : Text) (s : State) (m : Map Text)
      → c_str task_id ≡ task_id
      → as_hash (laws.view s (task_key task_id)) ≡ some m
      → (j : Text) → laws.view (get_task S c mem task_id s).1 j ≡ laws.view s j
  unfolding get_task c_str
  get_task-view mem task_id s m cs h j =
      let read = hash_get_all-view (task_key task_id) s m (ap (λ i. codes "task:" ++ i) cs) h in
      let r = hash_get_all S c (task_key task_id) s in
      ap (λ u. laws.view u j) (read_fields-state mem task_id r.0 r.1)
      ∙ same_everywhere S laws (task_key task_id) s r.1 read.1 read.2 j

  pub get_task-Holds :
      (mem : Memory) (t : TaskInfo) (s : State) (m : Map Text)
      → IsTask t
      → c_str t.id ≡ t.id
      → as_hash (laws.view s (task_key t.id)) ≡ some m
      → Holds m t
      → (get_task S c mem t.id s).0 ≡ ok t
  unfolding get_task c_str
  get_task-Holds mem t s m v cs h fields =
      let read = hash_get_all-view (task_key t.id) s m (ap (λ i. codes "task:" ++ i) cs) h in
      let r = hash_get_all S c (task_key t.id) s in
      let holds = Holds-congr t r.0 m read.0 fields in
      ap (λ x. x.0)
        (read_fields-some mem t.id (codes "type") (to_string t.type) r.0 r.1 holds.0
          ∙ parse_task-Holds r.1 r.0 t v holds)

  pub get_task-fields :
      (mem : Memory) (t : TaskInfo) (s : State) (m : Map Text)
      → IsTask t
      → c_str t.id ≡ t.id
      → as_hash (laws.view s (task_key t.id)) ≡ some (enter (task_fields t) m)
      → (get_task S c mem t.id s).0 ≡ ok t
  get_task-fields mem t s m v cs h =
      get_task-Holds mem t s (enter (task_fields t) m) v cs h (Holds-enter t m)

  -- A task that saveTask has written, its numbers in the range of their types and its id without a
  -- NUL, is what getTask reads back, whatever was at its key before as a hash and whatever was in
  -- memory.
  pub get_task-save_task :
      (mem : Memory) (t : TaskInfo) (s : State) (m : Map Text)
      → IsTask t
      → c_str t.id ≡ t.id
      → as_hash (laws.view s (task_key t.id)) ≡ some m
      → ((save_task S c t s).0 ≡ true) × ((get_task S c mem t.id (save_task S c t s).1).0 ≡ ok t)
  get_task-save_task mem t s m v cs h =
      let saved = save_task-view t s m h in
      (saved.0, get_task-fields mem t (save_task S c t s).1 m v cs saved.1)
