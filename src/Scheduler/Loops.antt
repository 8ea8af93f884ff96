-- ===== src/Scheduler/Loops.antt =====
-- scheduler.cpp, workerCheckLoop and taskDispatchLoop: one round of each.
use my_taskflow_system.Common.{ℕ, Bool, List, [], ◌∷◌, Text, is_empty, if◌then◌else◌}
use my_taskflow_system.Common.Int.{pos, ltb_ℤ, sub_ℕ}
use my_taskflow_system.Common.Exec.{Exec, ok, ◌>>=◌, ◌>>◌, pure}
use my_taskflow_system.Redis.Server.{Server}
use my_taskflow_system.Redis.Tasks.{get_task, push_to_priority_queue}
use my_taskflow_system.Redis.Pool.{Shared}
use my_taskflow_system.Balancer.Model.{
  WorkerNode, LoadBalancer, Readings, mark_worker_dead, get_workers,
}
use my_taskflow_system.Balancer.Strategies.{Circle, select_worker}
use my_taskflow_system.Dispatcher.Model.{
  System, Surroundings, with_connection, give_back, calls, tries,
}
use my_taskflow_system.Dispatcher.Methods.{pop_next_task, assign_task_to_worker}

-- now - worker.last_heartbeat > 15000
abbrev pub is_late : ℕ → WorkerNode → Bool
is_late now w = ltb_ℤ (pos 15000) (sub_ℕ now w.last_heartbeat)

-- The loop over the workers in workerCheckLoop.
unfoldable pub mark_late : ℕ → List WorkerNode → LoadBalancer → LoadBalancer
unfolding mark_worker_dead
mark_late now [] lb = lb
mark_late now (w ∷ ws) lb =
    mark_late now ws (if is_late now w then mark_worker_dead w.id lb else lb)

-- One round of workerCheckLoop after its sleep.
unfoldable pub check_round : ℕ → LoadBalancer → LoadBalancer
unfolding get_workers mark_late
check_round now lb = mark_late now (get_workers lb) lb

module _ (S : Server) where
  open S use {State}

  -- The branch of taskDispatchLoop for a task that no worker is there for, once it has a connection.
  unfoldable pub requeue_on : Surroundings → Text → Shared → Exec (System State) (Unit {0})
  unfolding give_back calls tries
  requeue_on o task_id c = do
    task ← tries S (get_task S c.client o.memory task_id)
    if is_empty task.id then give_back S c tt else (do
      calls S (push_to_priority_queue S c.client task.priority task_id)
      give_back S c tt)

  unfoldable pub requeue : Surroundings → Text → Exec (System State) (Unit {0})
  unfolding with_connection requeue_on
  requeue o task_id = with_connection S o tt (requeue_on o task_id)

  module _ (sort : List Circle → List Circle) where
    unfoldable pub selects : Readings → Text → Exec (System State) Text
    unfolding select_worker
    selects r task_id s =
        let (worker_id, balancer) = select_worker sort r task_id s.balancer in
        (ok worker_id, record s { balancer = balancer })

    -- taskDispatchLoop once it has a task and the answer of selectWorker: the milliseconds that it
    -- sleeps afterwards.
    unfoldable pub dispatch_to : Surroundings → Text → Text → Exec (System State) ℕ
    unfolding requeue assign_task_to_worker
    dispatch_to o task_id worker_id =
        if is_empty worker_id
        then (do requeue o task_id; pure 1000)
        else (do assign_task_to_worker S o task_id worker_id; pure 0)

    -- One round of taskDispatchLoop. Its second use of the pool meets other surroundings.
    unfoldable pub dispatch_round : Surroundings → Surroundings → Readings → Exec (System State) ℕ
    unfolding pop_next_task selects dispatch_to
    dispatch_round o later r = do
      task_id ← pop_next_task S o
      if is_empty task_id
          then pure 100
          else (do worker_id ← selects r task_id; dispatch_to later task_id worker_id)
