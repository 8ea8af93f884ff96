-- ===== src/Queries/Agreement.antt =====
-- tracker.cpp against scheduler.cpp: QueryTask and GetTaskStatus.
use my_taskflow_system.Common.{◌≡◌, refl, ap, ◌∙◌, true, some, Text}
use my_taskflow_system.Common.Exec.{Result, ok, throw, bind, pure}
use my_taskflow_system.Messages.{TaskReply}
use my_taskflow_system.Redis.Server.{Server}
use my_taskflow_system.Redis.Client.{RedisClient}
use my_taskflow_system.Redis.Tasks.{TaskInfo, get_task}
use my_taskflow_system.Redis.Laws.{RedisLaws}
use my_taskflow_system.Redis.Pool.{Shared, RedisPool, get_connection}
use my_taskflow_system.Redis.Claims.{IsValid}
use my_taskflow_system.Dispatcher.Model.{System, Surroundings, give_back, tries, no_task}
use my_taskflow_system.Dispatcher.Methods.{get_task_info, info_on}
use my_taskflow_system.Dispatcher.Submission.{with_connection-found, leased_up}
use my_taskflow_system.Scheduler.{status_reply, get_task_status_rpc}
use my_taskflow_system.Scheduler.Journey.{get_task-client}
use my_taskflow_system.Queries.{query_reply, query_task}

abbrev replied : Result TaskInfo → Result TaskReply
replied (ok t) = ok (status_reply t)
replied (throw e) = throw e

-- The tracker fills its reply as the scheduler does.
query_reply-status_reply : (t : TaskInfo) → query_reply t ≡ status_reply t
unfolding query_reply
query_reply-status_reply t = refl

queried-bind :
    {S : Type 0} (r : Result TaskInfo × S) → (bind r (λ t. pure (query_reply t))).0 ≡ replied r.0
queried-bind (ok t, s) = ap ok (query_reply-status_reply t)
queried-bind (throw e, s) = refl

module _ (S : Server) (laws : RedisLaws S) where
  open S use {State}

  query_task-replied :
      (o : Surroundings) (c : RedisClient) (id : Text) (s : State)
      → (query_task S c o.memory id s).0 ≡ replied (get_task S c o.memory id s).0
  unfolding query_task
  query_task-replied o c id s = queried-bind (get_task S c o.memory id s)

  replied-give_back :
      (d : Shared) (r : Result TaskInfo × System State)
      → replied r.0 ≡ (bind (bind r (λ t. give_back S d t)) (λ t. pure (status_reply t))).0
  unfolding give_back
  replied-give_back d (ok t, s) = refl
  replied-give_back d (throw e, s) = refl

  -- The tracker's QueryTask and the scheduler's GetTaskStatus reply the same, exceptions included,
  -- to a question for the same task in the same state of Redis and of their own memory, when the
  -- tracker's client is connected and the scheduler's valid pool has a connection for it.
  pub query_task-get_task_status_rpc :
      (o : Surroundings) (c : RedisClient) (id : Text) (s : System State) (d : Shared)
      (p : RedisPool)
      → c.connected ≡ true
      → IsValid s.pool
      → get_connection o.attempts s.pool ≡ (some d, p)
      → (query_task S c o.memory id s.redis).0 ≡ (get_task_status_rpc S o id s).0
  unfolding get_task_status_rpc get_task_info info_on give_back tries
  query_task-get_task_status_rpc o c id s d p up v e =
      let up' = leased_up S laws o s d p v e in
      query_task-replied o c id s.redis
      ∙ ap (λ x. replied x.0) (get_task-client S laws c d.client o.memory id s.redis up up')
      ∙ rw (with_connection-found S laws o no_task (info_on S o id) s d p e)
          (replied-give_back d (tries S (get_task S d.client o.memory id) (record s { pool = p })))
