-- ===== src/Scheduler/Start.antt =====
-- scheduler.cpp, main: the address of Redis, the registration in etcd and the loop over the workers.
use my_taskflow_system.Common.{none, some, [], Text, codes, is_empty, if◌then◌else◌}
use my_taskflow_system.Common.Int.{ℤ, pos}
use my_taskflow_system.Common.Exec.{Exec, Result, ok, ◌>>=◌, pure}
use my_taskflow_system.Common.Decimal.{stoi}
use my_taskflow_system.Common.Search.{split_at}
use my_taskflow_system.Balancer.Model.{LoadBalancer, Readings, update_workers}
use my_taskflow_system.Etcd.Server as Etcd
use my_taskflow_system.Etcd.Services.{Garbage}
use my_taskflow_system.Etcd.Registry.{ServiceRegistry, services_of, join}
use my_taskflow_system.Config.Settings.{SchedulerConfig}

-- main's reading of redis_addr: the host up to the first colon, and the port from
-- redis_stream.str(), which is the whole text.
unfoldable pub redis_host : Text → Text
unfolding split_at
redis_host addr = elim (split_at b':' addr) [ some (host, rest) ↦ host | none ↦ addr ]

unfoldable pub redis_port : Text → Result ℤ
unfolding stoi
redis_port addr = if is_empty addr then ok (pos 6379) else stoi addr

-- main's registration of the scheduler.
module _ (E : Etcd.Server) where
  unfoldable pub join_etcd : SchedulerConfig → ServiceRegistry → Exec E.State ServiceRegistry
  unfolding join
  join_etcd config =
      join E config.etcd_endpoints (codes "scheduler") (codes "scheduler-1") (codes "localhost")
        config.port []

-- One round of the loop of main: what etcd lists becomes the workers of the balancer.
module _ (E : Etcd.Server) where
  unfoldable pub sync_round :
      Garbage → ServiceRegistry → Readings → LoadBalancer → Exec E.State LoadBalancer
  unfolding services_of update_workers
  sync_round g registry r lb = do
    workers ← services_of E g (codes "worker") registry
    pure (update_workers r workers lb)
