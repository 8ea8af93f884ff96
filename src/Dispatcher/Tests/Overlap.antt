-- ===== src/Dispatcher/Tests/Overlap.antt =====
-- Two submissions, a pop and a mark that overlap, on the server of Redis/Sample.antt.
use my_taskflow_system.Common.{c_str, ◌≡◌, refl, [], ◌∷◌, codes, All}
use my_taskflow_system.Redis.Tasks.{task_key, TaskInfo, save_task, push_to_priority_queue}
use my_taskflow_system.Redis.Client.{hash_set, pop_left}
use my_taskflow_system.Redis.Lists.{Queues, Holds, is_high}
use my_taskflow_system.Redis.Sample.{Store, sample, sample_laws}
use my_taskflow_system.Dispatcher.Model.{submitted}
use my_taskflow_system.Dispatcher.Marks.{as_running, mark_value}
use my_taskflow_system.Dispatcher.Interleaving.{
  marks, Steps, saves, pushes, pops, none_left, first, Sound,
}
use my_taskflow_system.Dispatcher.Commands.{between}
use my_taskflow_system.Dispatcher.Overlap.{IsReadable, steps_keep_tasks}
use my_taskflow_system.Dispatcher.Tests.{t1, mem, request, request-IsTask, t1_plain, t2_plain}
use my_taskflow_system.Dispatcher.Tests as Data
use my_taskflow_system.Dispatcher.Tests.Effects.{
  idle_store, no_queues, idle_store-Stored, no_hashes, low_request, low_request-IsTask,
}

abbrev low_task : TaskInfo
low_task = submitted mem low_request

abbrev high_task : TaskInfo
high_task = submitted mem request

abbrev both_saved : Store
both_saved =
    (save_task sample Data.first.client high_task
      (save_task sample Data.first.client low_task idle_store).1).1

abbrev low_pushed : Store
low_pushed =
    (push_to_priority_queue sample Data.first.client low_task.priority low_task.id both_saved).1

abbrev popped : Store
popped = (pop_left sample Data.first.client (codes "queue:high") low_pushed).1

abbrev marked_store : Store
marked_store =
    (hash_set sample Data.first.client (task_key t1) (codes "status") (codes "1") popped).1

running_plain : c_str (mark_value as_running) ≡ mark_value as_running
unfolding c_str
running_plain = refl

overlapping :
    Steps sample (between idle_store) (record { redis = marked_store; saved = high_task ∷ [] })
overlapping =
    first (saves Data.first.client low_task (between idle_store) refl low_request-IsTask t1_plain) (
      first (saves Data.first.client high_task _ refl request-IsTask t2_plain) (
        first (pushes Data.first.client low_task (high_task ∷ []) [] both_saved refl) (
          first (pops Data.first.client is_high _ refl) (
            first (marks Data.first.client as_running t1 _ refl t1_plain running_plain tt)
              none_left))))

idle_store-Sound : Sound sample sample_laws (between idle_store) no_queues
idle_store-Sound = record {
  queued = idle_store-Stored.waiting;
  hashes = no_hashes;
  high_known = tt;
  medium_known = tt;
  low_known = tt;
  under_way = tt;
}

steps_keep_tasks_example :
    (after : Queues) × Holds sample sample_laws marked_store after
    × All (IsReadable sample sample_laws marked_store) after.high
    × All (IsReadable sample sample_laws marked_store) after.medium
    × All (IsReadable sample sample_laws marked_store) after.low
steps_keep_tasks_example =
    steps_keep_tasks sample sample_laws no_queues overlapping idle_store-Sound
