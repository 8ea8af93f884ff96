-- ===== src/Redis/Ranges.antt =====
-- The tasks that getTask of common/redis_client.cpp returns, whatever the server answers: where their
-- fields come from, and the range of their numbers.
use my_taskflow_system.Common.{
  codes, ◌-◌, ◌^◌, ◌≡◌, refl, Text, ◌&&◌, arith, Bool-cases, inl, inr, ◌⊎◌, none, some,
  Option-cases, ◌∷◌, [],
}
use my_taskflow_system.Common.Int.{ℤ, pos, negsuc, leb_ℤ}
use my_taskflow_system.Common.Maps.{Map, find}
use my_taskflow_system.Common.Exec.{Exec, Result, ok, throw, bind, Every, bind-Every}
use my_taskflow_system.Common.Decimal.{stoll, in_range, read_signed, skip_spaces, IsInt, IsInt64}
use my_taskflow_system.Redis.Server.{Server}
use my_taskflow_system.Redis.Client.{RedisClient, hash_get_all}
use my_taskflow_system.Redis.Tasks.{
  TaskInfo, Memory, unset_task, to_int, task_key, get_int, get_field, parse_task, read_fields,
  get_task,
}
use my_taskflow_system.Redis.RoundTrip.{IsTask}

-- Whatever was in memory, in the range of the types.
abbrev pub IsMemory : Memory → Type 0
IsMemory m = IsTask (unset_task m [])

in_range-IsInt64 : (r : Result ℤ) → Every IsInt64 (in_range (2 ^ 63) r)
unfolding in_range
in_range-IsInt64 (throw e) = tt
in_range-IsInt64 (ok z) =
    elim (Bool-cases (leb_ℤ (negsuc (2 ^ 63 - 1)) z && leb_ℤ z (pos (2 ^ 63 - 1)))) [
      | inl inside ↦ rw inside (ground arith, ground arith)
      | inr outside ↦ rw outside tt
    ]

stoll-Every : (t : Text) → Every IsInt64 (stoll t)
unfolding stoll
stoll-Every t = in_range-IsInt64 (read_signed (skip_spaces t))

-- The number that a field of the hash holds, 0 if there is no such field.
abbrev pub IsNumber : Map Text → Text → ℤ → Type 0
IsNumber m name z =
    ((find name m ≡ none) × (z ≡ pos 0)) ⊎ ((v : Text) × (find name m ≡ some v) × (stoll v ≡ ok z))

-- The same as an int64_t that is stored in an int.
abbrev pub IsNarrowed : Map Text → Text → ℤ → Type 0
IsNarrowed m name i = (z : ℤ) × IsNumber m name z × (i ≡ to_int z)

-- The text of a field of the hash, "" if there is no such field.
abbrev pub IsText : Map Text → Text → Text → Type 0
IsText m name t = ((find name m ≡ none) × (t ≡ [])) ⊎ (find name m ≡ some t)

-- A task whose every field comes from the field of the hash with its name.
pub record IsReadFrom (m : Map Text) (t : TaskInfo) : Type 0 where
  pub type_read : IsNarrowed m (codes "type") t.type
  pub priority_read : IsNarrowed m (codes "priority") t.priority
  pub data_read : IsText m (codes "data") t.payload
  pub created_read : IsNumber m (codes "created_at") t.created_at
  pub started_read : IsNumber m (codes "started_at") t.started_at
  pub finished_read : IsNumber m (codes "finished_at") t.finished_at
  pub status_read : IsNarrowed m (codes "status") t.status
  pub retry_read : IsNarrowed m (codes "retry_count") t.retry_count
  pub error_read : IsText m (codes "error_message") t.error_message
  pub result_read : IsText m (codes "result") t.result

-- What getTask makes of a hash: the id, the numbers in the range of their types, and the fields from
-- the hash, or from memory if the hash is empty.
abbrev pub IsTaskOf : Memory → Text → Map Text → TaskInfo → Type 0
IsTaskOf mem task_id m t =
    (t.id ≡ task_id) × IsTask t × (((m ≡ []) × (t ≡ unset_task mem task_id)) ⊎ IsReadFrom m t)

abbrev Number : Map Text → Text → ℤ → Type 0
Number m name z = IsInt64 z × IsNumber m name z

get_int-Every : (m : Map Text) (name : Text) → Every (Number m name) (get_int m name)
unfolding get_int
get_int-Every m name = elim (Option-cases (find name m)) [
  | inl e ↦ rw (e, Every) ((omega arith, omega arith), inl (e, refl))
  | inr (v, e) ↦ rw (e, Every) (read v e (stoll v) refl (stoll-Every v))
]
  where
    read :
        (v : Text)
        → find name m ≡ some v
        → (r : Result ℤ) → stoll v ≡ r
        → Every IsInt64 r
        → Every (Number m name) r
    read v e (ok z) h i = (i, inr (v, e, h))
    read v e (throw x) h i = tt

get_field-IsText : (m : Map Text) (name : Text) → IsText m name (get_field m name)
unfolding get_field
get_field-IsText m name = elim (Option-cases (find name m)) [
  | inl e ↦ inl (e, rw (e, get_field) refl)
  | inr (v, e) ↦ inr (rw (e, get_field) refl)
]

to_int-IsInt : (z : ℤ) → IsInt (to_int z)
to_int-IsInt (pos n) = ground arith
to_int-IsInt (negsuc n) = ground arith

parse_task-Every :
    {S : Type 0} (task_id : Text) (m : Map Text) (s : S)
    → Every (λ t. (t.id ≡ task_id) × IsTask t × IsReadFrom m t) (parse_task task_id m s).0
unfolding parse_task
parse_task-Every {S = S} task_id m s = next (codes "type") _ λ type h1.
    next (codes "priority") _ λ priority h2. next (codes "created_at") _ λ created_at h3.
      next (codes "started_at") _ λ started_at h4. next (codes "finished_at") _ λ finished_at h5.
        next (codes "status") _ λ status h6. next (codes "retry_count") _ λ retry_count h7. (
          refl,
          record {
            type_int = to_int-IsInt type;
            priority_int = to_int-IsInt priority;
            created_int = h3.0;
            started_int = h4.0;
            finished_int = h5.0;
            status_int = to_int-IsInt status;
            retry_int = to_int-IsInt retry_count;
          },
          record {
            type_read = (type, h1.1, refl);
            priority_read = (priority, h2.1, refl);
            data_read = get_field-IsText m (codes "data");
            created_read = h3.1;
            started_read = h4.1;
            finished_read = h5.1;
            status_read = (status, h6.1, refl);
            retry_read = (retry_count, h7.1, refl);
            error_read = get_field-IsText m (codes "error_message");
            result_read = get_field-IsText m (codes "result");
          },
        )
  where
    P : TaskInfo → Type 0
    P t = (t.id ≡ task_id) × IsTask t × IsReadFrom m t

    next :
        (name : Text) (f : ℤ → Exec S TaskInfo)
        → ((z : ℤ) → Number m name z → Every P (f z s).0)
        → Every P (bind (get_int m name, s) f).0
    next name f k = bind-Every (Number m name) P (get_int m name, s) f (get_int-Every m name) k

read_fields-Every :
    {S : Type 0} (mem : Memory) (task_id : Text) (m : Map Text) (s : S)
    → IsMemory mem
    → Every (IsTaskOf mem task_id m) (read_fields mem task_id m s).0
unfolding read_fields
read_fields-Every mem task_id [] s h = (
  refl,
  record {
    type_int = h.type_int;
    priority_int = h.priority_int;
    created_int = h.created_int;
    started_int = h.started_int;
    finished_int = h.finished_int;
    status_int = h.status_int;
    retry_int = h.retry_int;
  },
  inl (refl, refl),
)
read_fields-Every mem task_id (f ∷ m) s h =
    Every-map _ _ (parse_task task_id (f ∷ m) s).0 (λ t p. (p.0, p.1, inr p.2))
      (parse_task-Every task_id (f ∷ m) s)
  where
    Every-map :
        (P Q : TaskInfo → Type 0) (r : Result TaskInfo)
        → ((t : TaskInfo) → P t → Q t)
        → Every P r
        → Every Q r
    Every-map P Q (ok t) f p = f t p
    Every-map P Q (throw e) f p = tt

module _ (S : Server) (c : RedisClient) where
  open S use {State}

  -- Whatever Redis answers to HGETALL, the task that getTask returns, if it returns, has the id that
  -- was asked for and every number in the range of its type. If the answer has fields, each field of
  -- the task is what the field of the answer with its name holds: the text, or the number that
  -- std::stoll reads there (narrowed to int for the type, the priority, the status and the retry
  -- count), and "" or 0 if there is no such field; if it has none, the task is what was in memory.
  -- For numbers in memory that are in range.
  pub get_task-IsTaskOf :
      (mem : Memory) (task_id : Text) (s : State)
      → IsMemory mem
      → Every
          (IsTaskOf mem task_id (hash_get_all S c (task_key task_id) s).0)
          (get_task S c mem task_id s).0
  unfolding get_task
  get_task-IsTaskOf mem task_id s h =
      let (fields, s1) = hash_get_all S c (task_key task_id) s in
      read_fields-Every mem task_id fields s1 h
