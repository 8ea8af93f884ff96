-- ===== src/Redis/Loads.antt =====
-- The load of a worker in common/redis_client.cpp: incrementWorkerLoad, decrementWorkerLoad and
-- getWorkerLoad.
use my_taskflow_system.Common.{
  ◌-◌, ℕ, zero, suc, ◌+◌, ◌<◌, ◌^◌, ◌≡◌, refl, ap, ◌∙◌, true, false, ◌++◌, Text, text_eq, c_str,
  codes, arith,
}
use my_taskflow_system.Common.Int.{ltb_ℤ, pos, negsuc}
use my_taskflow_system.Common.Exec.{ok}
use my_taskflow_system.Common.Decimal.{stoi_not_empty, to_string, stoll-to_string, stoi-to_string}
use my_taskflow_system.Redis.Server.{Server}
use my_taskflow_system.Redis.Client.{RedisClient, get_text, increment_key, increment_by}
use my_taskflow_system.Redis.Tasks.{
  decrement_worker_load, increment_worker_load, get_worker_load, load_key,
}
use my_taskflow_system.Redis.Laws.{text_value, RedisLaws, same_everywhere}
use my_taskflow_system.Redis.RoundTrip.{request_ran}

worker_key : {w : Text} → c_str w ≡ w → c_str (load_key w) ≡ load_key w
unfolding c_str
worker_key cs = ap (λ i. codes "worker:load:" ++ i) cs

module _ (S : Server) (laws : RedisLaws S) where
  open S use {State}

  -- The load that Redis keeps of a worker.
  abbrev pub LoadIs : Text → ℕ → State → Type 0
  LoadIs worker_id n s = laws.view s (load_key worker_id) ≡ text_value (to_string (pos n))

  -- From one state to another, the load has come to be n and no other key has changed.
  abbrev pub Counted : Text → ℕ → State → State → Type 0
  Counted worker_id n s s' =
      LoadIs worker_id n s'
      × ((j : Text) → text_eq (load_key worker_id) j ≡ false → laws.view s' j ≡ laws.view s j)

  module _ (c : RedisClient) (up : c.connected ≡ true) where
    get_text-view :
        (k v : Text) (s : State)
        → c_str k ≡ k
        → laws.view s k ≡ text_value v
        → ((get_text S c k s).0 ≡ v)
          × ((j : Text) → laws.view (get_text S c k s).1 j ≡ laws.view s j)
    unfolding get_text
    get_text-view k v s ck h =
        let r = laws.get_law k v s h in
        rw (ck, request_ran S laws c up r)
          (
            rw r.described.0 r.described.1,
            same_everywhere S laws k s r.state r.described.2 r.others,
          )

    pub get_worker_load-number :
        (worker_id : Text) (n : ℕ) (s : State)
        → c_str worker_id ≡ worker_id
        → n < 2 ^ 31
        → LoadIs worker_id n s
        → ((get_worker_load S c worker_id s).0 ≡ ok (pos n))
          × ((j : Text) → laws.view (get_worker_load S c worker_id s).1 j ≡ laws.view s j)
    unfolding get_worker_load
    get_worker_load-number worker_id n s cs lt h =
        let r = get_text-view (load_key worker_id) (to_string (pos n)) s (worker_key cs) h in
        let read = stoi-to_string (pos n) (omega arith) in
        (rw (r.0, stoi_not_empty (to_string (pos n)) (pos n) read) read, r.1)

    increment_key-Counted :
        (worker_id : Text) (n : ℕ) (s : State)
        → c_str worker_id ≡ worker_id
        → n + 1 < 2 ^ 63
        → LoadIs worker_id n s
        → Counted worker_id (n + 1) s (increment_key S c (load_key worker_id) s).1
    unfolding increment_key
    increment_key-Counted worker_id n s cs lt h =
        let r = laws.incr_law (load_key worker_id) n s h lt in
        rw (worker_key cs, request_ran S laws c up r) (r.described.1, r.others)

    -- incrementWorkerLoad adds one to the load of a worker without a NUL in its id.
    pub increment_worker_load-Counted :
        (worker_id : Text) (n : ℕ) (s : State)
        → c_str worker_id ≡ worker_id
        → n + 1 < 2 ^ 63
        → LoadIs worker_id n s
        → Counted worker_id (n + 1) s (increment_worker_load S c worker_id s)
    unfolding increment_worker_load
    increment_worker_load-Counted = increment_key-Counted

    decrement_key-Counted :
        (worker_id : Text) (n : ℕ) (s s0 : State)
        → c_str worker_id ≡ worker_id
        → suc n < 2 ^ 63
        → LoadIs worker_id (suc n) s
        → ((j : Text) → laws.view s j ≡ laws.view s0 j)
        → Counted worker_id n s0 (increment_by S c (load_key worker_id) (negsuc 0) s).1
    unfolding increment_by
    decrement_key-Counted worker_id n s s0 cs lt h same =
        let r = laws.decr_law (load_key worker_id) n s h lt in
        rw (worker_key cs, request_ran S laws c up r)
          (r.described.1, λ j apart. r.others j apart ∙ same j)

    -- decrementWorkerLoad takes one off the load of a worker without a NUL in its id, unless the
    -- load is 0.
    pub decrement_worker_load-Counted :
        (worker_id : Text) (n : ℕ) (s : State)
        → c_str worker_id ≡ worker_id
        → n < 2 ^ 63
        → LoadIs worker_id n s
        → ((decrement_worker_load S c worker_id s).0 ≡ ok tt)
          × Counted worker_id (n - 1) s (decrement_worker_load S c worker_id s).1
    unfolding decrement_worker_load
    decrement_worker_load-Counted worker_id zero s cs lt h =
        let r = get_text-view (load_key worker_id) (to_string (pos 0)) s (worker_key cs) h in
        rw (r.0, stoll-to_string (pos 0) (omega arith))
          (refl, (r.1 (load_key worker_id) ∙ h, λ j _. r.1 j))
    decrement_worker_load-Counted worker_id (suc n) s cs lt h =
        let r = get_text-view (load_key worker_id) (to_string (pos (suc n))) s (worker_key cs) h in
        let s1 = (get_text S c (load_key worker_id) s).1 in
        let less : suc n - 1 ≡ n = omega arith in
        let some_load : ltb_ℤ (pos 0) (pos (suc n)) ≡ true = ground arith in
        rw (r.0, stoll-to_string (pos (suc n)) (omega arith), some_load, less)
          (refl, decrement_key-Counted worker_id n s1 s cs lt (r.1 (load_key worker_id) ∙ h) r.1)
