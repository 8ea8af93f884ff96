-- ===== src/Dispatcher/Model.antt =====
-- scheduler/task_dispatcher.cpp and task_dispatcher.h: what the methods work on, and the calls that
-- they are made of.
use my_taskflow_system.Common.{
  ℕ, ◌-◌, ◌^◌, Bool, none, some, [], ◌++◌, Text, codes, is_empty, if◌then◌else◌,
}
use my_taskflow_system.Common.Int.{ℤ, pos, negsuc, eq_ℤ}
use my_taskflow_system.Common.Exec.{Exec, Result, ok, bind}
use my_taskflow_system.Common.Decimal.{to_string, stoi}
use my_taskflow_system.Redis.Server.{Server}
use my_taskflow_system.Redis.Client.{Connection}
use my_taskflow_system.Redis.Tasks.{TaskInfo, Memory}
use my_taskflow_system.Redis.Pool.{Shared, RedisPool, get_connection, return_connection}
use my_taskflow_system.Balancer.Model.{LoadBalancer, Moment}

pub record TaskRequest : Type 0 where
  pub id : Text
  pub type : ℤ
  pub priority : ℤ
  pub payload : Text
  pub created_at : ℤ
  pub retry_count : ℤ
  pub max_retries : ℤ

pub record TaskResult : Type 0 where
  pub task_id : Text
  pub success : Bool
  pub result : Text
  pub error_message : Text
  pub completed_at : ℤ

-- What a TaskDispatcher works on: the server with its connections, the pool and the load balancer.
pub record System (State : Type 0) : Type 0 where
  pub redis : State
  pub pool : RedisPool
  pub balancer : LoadBalancer

-- What one call finds around it: what the connect() of each client comes to, the clocks, the memory
-- that its TaskInfo objects are made in, and the value of 1 << n for a negative n, which C++ leaves
-- undefined.
pub record Surroundings : Type 0 where
  pub attempts : ℕ → Connection
  pub clock : Moment
  pub memory : Memory
  pub second_memory : Memory
  pub negative_shift : ℤ

-- The TaskInfo of submitTask: started_at and finished_at are not assigned.
abbrev pub submitted : Memory → TaskRequest → TaskInfo
submitted m t = record {
  id = t.id;
  type = t.type;
  priority = t.priority;
  payload = t.payload;
  created_at = t.created_at;
  started_at = m.started_at;
  finished_at = m.finished_at;
  status = pos 0;
  retry_count = pos 0;
  error_message = [];
  result = [];
}

-- TaskInfo{}
abbrev pub no_task : TaskInfo
no_task = record {
  id = [];
  type = pos 0;
  priority = pos 0;
  payload = [];
  created_at = pos 0;
  started_at = pos 0;
  finished_at = pos 0;
  status = pos 0;
  retry_count = pos 0;
  error_message = [];
  result = [];
}

-- 1 << retry_count
abbrev pub delay_seconds : Surroundings → ℤ → ℤ
delay_seconds o (pos n) = pos (2 ^ n)
delay_seconds o (negsuc n) = o.negative_shift

abbrev pub retry_key : ℤ → Text → Text
retry_key delay task_id = codes "retry:" ++ to_string delay ++ codes ":" ++ task_id

-- The `switch` of getTaskStatus.
abbrev pub status_name : ℤ → Text
status_name status =
    if eq_ℤ status (pos 0)
    then codes "pending"
    else if eq_ℤ status (pos 1)
    then codes "running"
    else if eq_ℤ status (pos 2)
    then codes "success"
    else if eq_ℤ status (pos 3)
    then codes "failed"
    else codes "unknown"

abbrev pub status_text : Text → Result Text
status_text status =
    let named = bind {S = Unit {0}} (stoi status, tt) (λ n s. (ok (status_name n), s)) in
    if is_empty status then ok (codes "not_found") else named.0

-- static_cast<size_t>
abbrev pub to_size : ℤ → ℕ
to_size (pos n) = n
to_size (negsuc n) = 2 ^ 64 - 1 - n

module _ (S : Server) where
  open S use {State}

  -- getConnection() and the `if (!redis)` that every method begins with.
  unfoldable pub with_connection :
      {A : Type 0} → Surroundings → A → (Shared → Exec (System State) A) → Exec (System State) A
  with_connection o otherwise body s =
      let (found, pool) = get_connection o.attempts s.pool in
      elim found [
        | none ↦ (ok otherwise, record s { pool = pool })
        | some c ↦ body c (record s { pool = pool })
      ]

  -- returnConnection(redis); return a;
  unfoldable pub give_back : {A : Type 0} → Shared → A → Exec (System State) A
  give_back c a s = (ok a, record s { pool = return_connection c.pointer s.pool })

  -- A call of the client.
  unfoldable pub calls : {A : Type 0} → (State → A × State) → Exec (System State) A
  calls f s = let (a, redis) = f s.redis in (ok a, record s { redis = redis })

  unfoldable pub tries : {A : Type 0} → Exec State A → Exec (System State) A
  tries f s = let (a, redis) = f s.redis in (a, record s { redis = redis })

  -- A call of the client for its effect.
  unfoldable pub does : (State → State) → Exec (System State) (Unit {0})
  does f s = (ok tt, record s { redis = f s.redis })

  unfoldable pub balances : (LoadBalancer → LoadBalancer) → Exec (System State) (Unit {0})
  balances f s = (ok tt, record s { balancer = f s.balancer })
