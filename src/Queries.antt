-- ===== src/Queries.antt =====
-- tracker.cpp and stats.cpp: the two services that only read. Each keeps one client of Redis, which
-- is connected before the service starts.
pub mod Agreement
pub mod Pending
mod Tests
use my_taskflow_system.Common.{
  ℕ, ◌+◌, ◌-◌, ◌%◌, ◌^◌, true, false, ltb, List, map, Text, codes, is_empty, [], if◌then◌else◌,
}
use my_taskflow_system.Common.Int.{ℤ, pos, negsuc, pos_part, neg_part, sub_ℕ}
use my_taskflow_system.Common.Exec.{Exec, Result, ok, bind, ◌>>=◌, pure}
use my_taskflow_system.Messages.{Task, unset_task, TaskReply, WorkerStats, GetStatsReply}
use my_taskflow_system.Redis.Server.{Server}
use my_taskflow_system.Redis.Client.{RedisClient, list_length}
use my_taskflow_system.Redis.Tasks.{TaskInfo, Memory, get_task}
use my_taskflow_system.Balancer.Model.{ServiceInfo}
use my_taskflow_system.Etcd.Server as Etcd
use my_taskflow_system.Etcd.Services.{Garbage}
use my_taskflow_system.Etcd.Registry.{ServiceRegistry, services_of, join}
use my_taskflow_system.Config.Settings.{StatsConfig}

infixl 60 ◌+ℤ◌
abbrev pub ◌+ℤ◌ : ℤ → ℤ → ℤ
a +ℤ b = sub_ℕ (pos_part a + pos_part b) (neg_part a + neg_part b)

-- The int32 that an int64 becomes when it is stored in a field of the message.
abbrev pub to_int32 : ℤ → ℤ
to_int32 a =
    let low = (pos_part a % 2 ^ 32 + (2 ^ 32 - neg_part a % 2 ^ 32)) % 2 ^ 32 in
    if ltb low (2 ^ 31) then pos low else negsuc (2 ^ 32 - 1 - low)

abbrev pub idle_worker : ServiceInfo → WorkerStats
idle_worker service = record {
  worker_id = service.id;
  total_tasks = pos 0;
  success_tasks = pos 0;
  failed_tasks = pos 0;
  avg_execution_time_ms = pos 0;
}

abbrev pub stats_reply : ℤ → ℕ → List ServiceInfo → GetStatsReply
stats_reply pending now workers = record {
  total_tasks = pos 0;
  pending_tasks = to_int32 pending;
  running_tasks = pos 0;
  success_tasks = pos 0;
  failed_tasks = pos 0;
  worker_stats = map idle_worker workers;
  timestamp = pos now;
}

-- The registration of the statistics in main.
module _ (E : Etcd.Server) where
  unfoldable pub join_etcd : StatsConfig → ServiceRegistry → Exec E.State ServiceRegistry
  unfolding join
  join_etcd config =
      join E config.etcd_endpoints (codes "stats") (codes "stats-1") (codes "localhost") config.port
        []

-- The task of a reply to QueryTask.
abbrev pub queried_task : TaskInfo → Task
queried_task t = record {
  id = t.id;
  type = t.type;
  priority = t.priority;
  payload = t.payload;
  created_at = t.created_at;
  started_at = t.started_at;
  finished_at = t.finished_at;
  status = t.status;
  retry_count = t.retry_count;
  error_message = t.error_message;
  result = t.result;
}

unfoldable pub query_reply : TaskInfo → TaskReply
query_reply t =
    if is_empty t.id
    then record { success = false; task = unset_task; message = codes "Task not found" }
    else record { success = true; task = queried_task t; message = codes "Task found" }

module _ (S : Server) where
  -- QueryTask.
  unfoldable pub query_task : RedisClient → Memory → Text → Exec S.State TaskReply
  unfolding get_task query_reply
  query_task c m task_id = do task ← get_task S c m task_id; pure (query_reply task)

  -- The three llen of GetStats, here from left to right; C++ leaves their order open.
  unfoldable pub pending_tasks : RedisClient → S.State → ℤ × S.State
  unfolding list_length
  pending_tasks c s =
      let (high, s1) = list_length S c (codes "queue:high") s in
      let (medium, s2) = list_length S c (codes "queue:medium") s1 in
      let (low, s3) = list_length S c (codes "queue:low") s2 in ((high +ℤ medium) +ℤ low, s3)

  module _ (E : Etcd.Server) where
    -- GetStats, on the two servers.
    unfoldable pub get_stats :
        RedisClient → Garbage → ServiceRegistry → ℕ → Exec (S.State × E.State) GetStatsReply
    unfolding pending_tasks services_of
    get_stats c g registry now (s, e) =
        let (pending, s') = pending_tasks c s in
        let (workers, e') = services_of E g (codes "worker") registry e in
        bind (workers, (s', e')) (λ ws. pure (stats_reply pending now ws))
