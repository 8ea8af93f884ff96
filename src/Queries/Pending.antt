-- ===== src/Queries/Pending.antt =====
-- stats.cpp, GetStats: the number of the tasks that wait.
use my_taskflow_system.Common.{
  false, ℕ, ◌+◌, ◌<◌, ◌^◌, ◌≡◌, refl, ap, ◌∙◌, true, some, List, Text, codes, c_str, text_eq,
  length, arith,
}
use my_taskflow_system.Common.Int.{pos}
use my_taskflow_system.Common.Exec.{ok}
use my_taskflow_system.Redis.Server.{Server}
use my_taskflow_system.Redis.Client.{RedisClient, list_length}
use my_taskflow_system.Redis.Laws.{RedisLaws, as_list}
use my_taskflow_system.Redis.RoundTrip.{request_ran}
use my_taskflow_system.Redis.Lists.{Queues, Holds}
use my_taskflow_system.Balancer.Model.{ServiceInfo}
use my_taskflow_system.Etcd.Server as Etcd
use my_taskflow_system.Etcd.Services.{Garbage}
use my_taskflow_system.Etcd.Registry.{ServiceRegistry, services_of}
use my_taskflow_system.Queries.{pending_tasks, get_stats, stats_reply, to_int32}

abbrev pub waiting : Queues → ℕ
waiting q = length q.high + length q.medium + length q.low

module _ (S : Server) (laws : RedisLaws S) (c : RedisClient) (up : c.connected ≡ true) where
  open S use {State}

  list_length-view :
      (k : Text) (s : State) (xs : List Text)
      → c_str k ≡ k
      → as_list (laws.view s k) ≡ some xs
      → ((list_length S c k s).0 ≡ pos (length xs))
        × ((j : Text) → text_eq k j ≡ false → laws.view (list_length S c k s).1 j ≡ laws.view s j)
  unfolding list_length
  list_length-view k s xs ck h =
      let r = laws.llen_law k s xs h in
      rw (ck, request_ran S laws c up r) (rw r.described.0 r.described.1, r.others)

  pending_tasks-waiting :
      (s : State) (q : Queues) → Holds S laws s q → (pending_tasks S c s).0 ≡ pos (waiting q)
  unfolding pending_tasks c_str text_eq
  pending_tasks-waiting s q h =
      let high = list_length-view (codes "queue:high") s q.high refl h.high_list in
      let s1 = (list_length S c (codes "queue:high") s).1 in
      let medium =
        list_length-view (codes "queue:medium") s1 q.medium refl
          (ap as_list (high.1 _ refl) ∙ h.medium_list) in
      let s2 = (list_length S c (codes "queue:medium") s1).1 in
      let low =
        list_length-view (codes "queue:low") s2 q.low refl
          (ap as_list (medium.1 _ refl) ∙ ap as_list (high.1 _ refl) ∙ h.low_list) in
      rw (high.0, medium.0, low.0) (ground arith)

  to_int32_small : (n : ℕ) → n < 2 ^ 31 → to_int32 (pos n) ≡ pos n
  to_int32_small n h = ground arith

  -- GetStats on a connected client replies with the number of all tasks that wait in the three
  -- queues, with every other count 0, and with one entry for each worker that etcd lists, in its
  -- order; for fewer than 2 ^ 31 waiting tasks, and when the list of workers can be read.
  pub get_stats-waiting :
      (E : Etcd.Server) (g : Garbage) (registry : ServiceRegistry) (now : ℕ) (s : State)
      (e : E.State) (q : Queues) (workers : List ServiceInfo)
      → Holds S laws s q
      → waiting q < 2 ^ 31
      → (services_of E g (codes "worker") registry e).0 ≡ ok workers
      → (get_stats S E c g registry now (s, e)).0
        ≡ ok (record (stats_reply (pos 0) now workers) { pending_tasks = pos (waiting q) })
  unfolding get_stats
  get_stats-waiting E g registry now s e q workers h few listed =
      rw (listed, pending_tasks-waiting s q h, to_int32_small (waiting q) few) refl
