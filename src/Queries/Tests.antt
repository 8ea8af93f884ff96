-- ===== src/Queries/Tests.antt =====
-- The tracker and the statistics at concrete inputs, with the data of Dispatcher/Tests.antt.
use my_taskflow_system.Common.{◌≡◌, refl, [], codes, arith, none}
use my_taskflow_system.Common.Int.{pos}
use my_taskflow_system.Common.Exec.{ok}
use my_taskflow_system.Redis.Sample.{sample, sample_laws}
use my_taskflow_system.Dispatcher.Tests.{
  t1, mem, around, store, queues, system, first, taken, pool-IsValid, found, store-Holds,
}
use my_taskflow_system.Scheduler.{get_task_status_rpc}
use my_taskflow_system.Etcd.Server as Etcd
use my_taskflow_system.Etcd.Services.{Garbage}
use my_taskflow_system.Etcd.Registry.{new_registry, services_of}
use my_taskflow_system.Queries.{query_task, get_stats, stats_reply}
use my_taskflow_system.Queries.Agreement.{query_task-get_task_status_rpc}
use my_taskflow_system.Queries.Pending.{get_stats-waiting}

query_task-get_task_status_rpc_example :
    (query_task sample first.client mem t1 store).0
    ≡ (get_task_status_rpc sample around t1 system).0
query_task-get_task_status_rpc_example =
    query_task-get_task_status_rpc sample sample_laws around first.client t1 system first taken refl
      pool-IsValid found

-- A registry that is not connected to etcd lists no workers.
abbrev silent : Etcd.Server
silent = record { State = Unit {0}; perform = λ request s. (none, s) }

abbrev garbage : Garbage
garbage = record { port = pos 1; lease_id = pos 2; last_update = pos 3 }

unlisted : (services_of silent garbage (codes "worker") new_registry tt).0 ≡ ok []
unfolding services_of
unlisted = refl

get_stats-waiting_example :
    (get_stats sample silent first.client garbage new_registry 1700000000000 (store, tt)).0
    ≡ ok (record (stats_reply (pos 0) 1700000000000 []) { pending_tasks = pos 1 })
get_stats-waiting_example =
    get_stats-waiting sample sample_laws first.client refl silent garbage new_registry 1700000000000
      store tt queues [] store-Holds (omega arith) unlisted
