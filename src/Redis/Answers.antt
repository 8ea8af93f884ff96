-- ===== src/Redis/Answers.antt =====
-- What single methods of common/redis_client.cpp answer, errors included: a load and a
-- task that are not there, and del.
use my_taskflow_system.Common.{
  ◌≡◌, refl, ap, true, false, some, [], ◌∷◌, ◌++◌, Text, text_eq_refl, c_str, codes, arith,
}
use my_taskflow_system.Common.Exec.{ok, throw, invalid_argument}
use my_taskflow_system.Common.Decimal.{stoll}
use my_taskflow_system.Redis.Server.{Server, Reply, ReplyType, del}
use my_taskflow_system.Redis.Client.{hash_get_all, RedisClient, request, delete, get_text}
use my_taskflow_system.Redis.Tasks.{
  decrement_worker_load, get_task, Memory, unset_task, load_key, task_key, read_fields,
}
use my_taskflow_system.Redis.Laws.{as_hash, absent, RedisLaws}
use my_taskflow_system.Redis.RoundTrip.{request_ran, hash_get_all-view}
use my_taskflow_system.Common.Maps.{Map, find}

module _ (S : Server) (laws : RedisLaws S) (c : RedisClient) (up : c.connected ≡ true) where
  open S use {State}

  no_fields :
      {St : Type 0} (mem : Memory) (task_id : Text) (m : Map Text) (s : St)
      → ((f : Text) → find f m ≡ find f [])
      → (read_fields mem task_id m s).0 ≡ ok (unset_task mem task_id)
  unfolding read_fields find
  no_fields mem task_id [] s e = refl
  no_fields mem task_id ((k, v) ∷ m) s e = ground (arith, text_eq_refl k, e k)

  -- A task of which Redis holds nothing is not reported as missing: getTask returns an object with
  -- the id that was asked for and, as its numbers, whatever was in memory; for an id without a NUL.
  pub get_task_missing :
      (mem : Memory) (task_id : Text) (s : State)
      → c_str task_id ≡ task_id
      → laws.view s (task_key task_id) ≡ absent
      → (get_task S c mem task_id s).0 ≡ ok (unset_task mem task_id)
  unfolding get_task c_str
  get_task_missing mem task_id s cs h =
      let read =
        hash_get_all-view S laws c up (task_key task_id) s [] (ap (λ i. codes "task:" ++ i) cs)
          (ap as_hash h) in
      let r = hash_get_all S c (task_key task_id) s in no_fields mem task_id r.0 r.1 read.0

  get_text-missing :
      (k : Text) (s : State)
      → c_str k ≡ k
      → laws.view s k ≡ absent
      → ((get_text S c k s).0 ≡ []) × (laws.view (get_text S c k s).1 k ≡ absent)
  unfolding get_text
  get_text-missing k s ck h =
      let r = laws.get_missing_law k s h in
      rw (ck, request_ran S laws c up r) (rw r.described.0, r.described.1)

  -- decrementWorkerLoad throws std::invalid_argument for a worker without a NUL in its id whose
  -- load key is not there, and leaves the key so.
  pub decrement_worker_load_missing :
      (worker_id : Text) (s : State)
      → c_str worker_id ≡ worker_id
      → laws.view s (load_key worker_id) ≡ absent
      → ((decrement_worker_load S c worker_id s).0 ≡ throw invalid_argument)
        × (laws.view (decrement_worker_load S c worker_id s).1 (load_key worker_id) ≡ absent)
  unfolding decrement_worker_load c_str stoll
  decrement_worker_load_missing worker_id s cs h =
      let r = get_text-missing (load_key worker_id) s (ap (λ i. codes "worker:load:" ++ i) cs) h in
      rw (r.0) (refl, r.1)

  -- del returns false whenever Redis answers, as it does, with the number of keys it removed.
  pub delete-number :
      (k : Text) (s s' : State) (r : Reply)
      → S.command (del (c_str k)) s ≡ (some r, s')
      → r.type ≡ ReplyType.integer
      → delete S c k s ≡ (false, s')
  unfolding delete request
  delete-number k s s' r ran i = rw (up, ran) (rw i refl)
