-- ===== src/Dispatcher/Marks.antt =====
-- The fields that assignTaskToWorker of scheduler/task_dispatcher.cpp writes into a task, one by one.
use my_taskflow_system.Common.{ℕ, ◌<◌, ◌^◌, ◌≡◌, refl, ap, some, Text, text_eq, codes, arith}
use my_taskflow_system.Common.Int.{ℤ, pos}
use my_taskflow_system.Common.Maps.{Map, put, find-put}
use my_taskflow_system.Common.Decimal.{to_string}
use my_taskflow_system.Redis.Tasks.{TaskInfo}
use my_taskflow_system.Redis.RoundTrip.{IsTask}
use my_taskflow_system.Redis.RoundTrip

pub data Mark : Type 0 where
  as_running : Mark
  with_worker : Text → Mark
  as_started : ℕ → Mark

abbrev pub mark_field : Mark → Text
mark_field as_running = codes "status"
mark_field (with_worker worker_id) = codes "worker_id"
mark_field (as_started now) = codes "started_at"

abbrev pub mark_value : Mark → Text
mark_value as_running = codes "1"
mark_value (with_worker worker_id) = worker_id
mark_value (as_started now) = to_string (pos now)

abbrev pub IsInTime : Mark → Type 0
IsInTime (as_started now) = now < 2 ^ 63
IsInTime _ = Unit {0}

abbrev status_after : Mark → ℤ → ℤ
status_after as_running old = pos 1
status_after _ old = old

abbrev started_after : Mark → ℤ → ℤ
started_after (as_started now) old = pos now
started_after _ old = old

-- The task with the field changed.
abbrev pub marked : Mark → TaskInfo → TaskInfo
marked k t = record t {
  status = status_after k t.status;
  started_at = started_after k t.started_at;
}

one : codes "1" ≡ to_string (pos 1)
unfolding to_string
one = refl

pub Holds-marked :
    (k : Mark) (m : Map Text) (t : TaskInfo)
    → RoundTrip.Holds m t
    → RoundTrip.Holds (put (mark_field k) (mark_value k) m) (marked k t)
unfolding text_eq
Holds-marked as_running m t h = (
  simp find-put h.0,
  simp find-put h.1,
  simp find-put h.2,
  simp find-put h.3,
  simp find-put h.4,
  simp find-put h.5,
  simp find-put (ap some one),
  simp find-put h.7,
  simp find-put h.8,
  simp find-put h.9,
)
Holds-marked (with_worker worker_id) m t h = (
  simp find-put h.0,
  simp find-put h.1,
  simp find-put h.2,
  simp find-put h.3,
  simp find-put h.4,
  simp find-put h.5,
  simp find-put h.6,
  simp find-put h.7,
  simp find-put h.8,
  simp find-put h.9,
)
Holds-marked (as_started now) m t h = (
  simp find-put h.0,
  simp find-put h.1,
  simp find-put h.2,
  simp find-put h.3,
  simp find-put,
  simp find-put h.5,
  simp find-put h.6,
  simp find-put h.7,
  simp find-put h.8,
  simp find-put h.9,
)

pub IsTask-marked : (k : Mark) (t : TaskInfo) → IsInTime k → IsTask t → IsTask (marked k t)
IsTask-marked as_running t lt it = omega arith
IsTask-marked (with_worker worker_id) t lt it = omega arith
IsTask-marked (as_started now) t lt it = omega arith
