-- ===== src/Dispatcher/Retries.antt =====
-- What retryTask and getTaskStatus answer for a task that is in Redis.
use my_taskflow_system.Common.{
  ◌++◌, arith, ◌≡◌, refl, ap, true, false, none, some, [], Text, c_str, codes,
}
use my_taskflow_system.Common.Int.{ℤ, pos, ◌≤ℤ◌, leb_ℤ}
use my_taskflow_system.Common.Maps.{Map, find}
use my_taskflow_system.Common.Exec.{ok}
use my_taskflow_system.Common.Decimal.{stoi_not_empty, to_string, IsInt, stoi-to_string}
use my_taskflow_system.Redis.Server.{Server}
use my_taskflow_system.Redis.Client.{RedisClient, hash_get}
use my_taskflow_system.Redis.Tasks.{TaskInfo, task_key, task_fields}
use my_taskflow_system.Redis.Laws.{RedisLaws, as_hash, enter}
use my_taskflow_system.Redis.Pool.{Shared, RedisPool, get_connection}
use my_taskflow_system.Redis.Claims.{IsValid}
use my_taskflow_system.Redis.RoundTrip.{IsTask, request_ran, get_task-fields, get_task-view}
use my_taskflow_system.Dispatcher.Model.{
  System, Surroundings, status_name, status_text, give_back, calls, tries,
}
use my_taskflow_system.Dispatcher.Methods.{status_on, retry_on, get_task_status, retry_task}
use my_taskflow_system.Dispatcher.Submission.{with_connection-found, leased_up}

status_text-to_string : (n : ℤ) → IsInt n → status_text (to_string n) ≡ ok (status_name n)
status_text-to_string n i =
    let read = stoi-to_string n i in rw (stoi_not_empty (to_string n) n read, read) refl

module _ (S : Server) (laws : RedisLaws S) where
  open S use {State}

  hash_get-some :
      (c : RedisClient) (up : c.connected ≡ true) (k f v : Text) (s : State) (m : Map Text)
      → c_str k ≡ k
      → c_str f ≡ f
      → as_hash (laws.view s k) ≡ some m
      → find f m ≡ some v
      → (hash_get S c k f s).0 ≡ v
  unfolding hash_get
  hash_get-some c up k f v s m ck cf h g =
      let r = laws.hget_law k f v s m h g in
      rw (ck, cf, request_ran S laws c up r) (rw r.described.0 r.described.1)

  hash_get-none :
      (c : RedisClient) (up : c.connected ≡ true) (k f : Text) (s : State) (m : Map Text)
      → c_str k ≡ k
      → c_str f ≡ f
      → as_hash (laws.view s k) ≡ some m
      → find f m ≡ none
      → (hash_get S c k f s).0 ≡ []
  unfolding hash_get
  hash_get-none c up k f s m ck cf h g =
      let r = laws.hget_missing_law k f s m h g in
      rw (ck, cf, request_ran S laws c up r) (rw r.described.0 refl)

  task_plain : {id : Text} → c_str id ≡ id → c_str (task_key id) ≡ task_key id
  unfolding c_str
  task_plain cs = ap (λ i. codes "task:" ++ i) cs

  -- getTaskStatus, when the valid pool has a connection for it: the word for the number in the
  -- field status, or "not_found" if the task's key has no such field; for an id without a NUL.
  pub get_task_status-fields :
      (o : Surroundings) (task_id : Text) (s : System State) (c : Shared) (p : RedisPool)
      (m : Map Text)
      → IsValid s.pool
      → get_connection o.attempts s.pool ≡ (some c, p)
      → c_str task_id ≡ task_id
      → as_hash (laws.view s.redis (task_key task_id)) ≡ some m
      → ((n : ℤ)
          → IsInt n
          → find (codes "status") m ≡ some (to_string n)
          → (get_task_status S o task_id s).0 ≡ ok (status_name n))
        × (find (codes "status") m ≡ none
            → (get_task_status S o task_id s).0 ≡ ok (codes "not_found"))
  unfolding get_task_status status_on give_back calls c_str
  get_task_status-fields o task_id s c p m v e cs h =
      let up = leased_up S laws o s c p v e in
      (
        λ n i g.
            let read =
              hash_get-some c.client up (task_key task_id) (codes "status") (to_string n) s.redis m
                (task_plain cs) refl h g in
            rw
              (
                with_connection-found S laws o (codes "unknown") (status_on S o task_id) s c p e,
                read,
              )
              (status_text-to_string n i),
        λ g.
            let read =
              hash_get-none c.client up (task_key task_id) (codes "status") s.redis m
                (task_plain cs) refl h g in
            rw
              (
                with_connection-found S laws o (codes "unknown") (status_on S o task_id) s c p e,
                read,
              )
              refl,
      )

  -- retryTask, when the valid pool has a connection for it, refuses a stored task that has been
  -- retried three times or more: it returns false and changes nothing in Redis. The id has no NUL
  -- and the numbers are in the range of their types.
  pub retry_task_refuses :
      (o : Surroundings) (t : TaskInfo) (s : System State) (c : Shared) (p : RedisPool)
      (m : Map Text)
      → IsValid s.pool
      → get_connection o.attempts s.pool ≡ (some c, p)
      → IsTask t
      → c_str t.id ≡ t.id
      → as_hash (laws.view s.redis (task_key t.id)) ≡ some (enter (task_fields t) m)
      → pos 3 ≤ℤ t.retry_count
      → ((retry_task S o t.id s).0 ≡ ok false)
        × ((j : Text) → laws.view (retry_task S o t.id s).1.redis j ≡ laws.view s.redis j)
  unfolding retry_task retry_on give_back tries
  retry_task_refuses o t s c p m v e it cs h three =
      let up = leased_up S laws o s c p v e in
      let read = get_task-fields S laws c.client up o.memory t s.redis m it cs h in
      let kept =
        get_task-view S laws c.client up o.memory t.id s.redis (enter (task_fields t) m) cs h in
      let enough : leb_ℤ (pos 3) t.retry_count ≡ true = ground arith in
      rw (with_connection-found S laws o false (retry_on S o t.id) s c p e, read, enough)
        (refl, kept)
