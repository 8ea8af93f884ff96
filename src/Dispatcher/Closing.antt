-- ===== src/Dispatcher/Closing.antt =====
-- What a method of the dispatcher does with the connection that it is given.
use my_taskflow_system.Common.{
  ◌&&◌, ℕ, ◌==◌, ◌≡◌, refl, sym, ap, ◌∙◌, subst, Bool, true, false, Option, none, some, Text, arith,
  if◌then◌else◌,
}
use my_taskflow_system.Common.Int.{ℤ}
use my_taskflow_system.Common.Exec.{Error, Exec, Result, ok, throw}
use my_taskflow_system.Redis.Server.{Server}
use my_taskflow_system.Redis.Pool.{Shared, RedisPool, get_connection, return_connection}
use my_taskflow_system.Redis.Claims.{IsValid, held}
use my_taskflow_system.Redis.Leases.{Leased, get_connection-Leased, held-return_connection}
use my_taskflow_system.Redis.Usable.{
  usable_in, found_any, get_connection-found, get_connection-usable,
}
use my_taskflow_system.Dispatcher.Model.{
  TaskRequest, TaskResult, System, Surroundings, with_connection, give_back, calls, tries, does,
  balances,
}
use my_taskflow_system.Dispatcher.Methods.{
  release_load, schedule_retry, submit_on, pop_on, assign_on, complete_on, fail_on, retry_on,
  retry_count_on, status_on, info_on, size_on,
}

-- What a method does with the connection that it was given: it gives it back, unless it ends by an
-- exception while it still has it: then it gives nothing back.
abbrev AfterClose :
    {A State : Type 0} → Bool → Shared → RedisPool → Result A × System State → Type 0
AfterClose has_it c p (ok a, s') = s'.pool ≡ return_connection c.pointer p
AfterClose has_it c p (throw e, s') =
    s'.pool ≡ (if has_it then p else return_connection c.pointer p)

abbrev pub held_in : ℕ → RedisPool → Bool
held_in q p = held q p.pool p.in_use

-- A method that returns leaves every connection with whom it was, and a free connected client if
-- there was one; one that ends by an exception
-- has taken exactly one more connection out of the pool, if it still had it.
pub record Returned {A State : Type 0} (has_it : Bool) (p : RedisPool) (r : Result A × System State)
    : Type 0 where
  pub valid : IsValid r.1.pool
  pub returns : (a : A) → r.0 ≡ ok a → (q : ℕ) → held_in q r.1.pool ≡ held_in q p
  pub stays_usable : (a : A) → r.0 ≡ ok a → usable_in p ≡ true → usable_in r.1.pool ≡ true
  pub throws :
      (e : Error)
      → r.0 ≡ throw e
      → (pointer : ℕ) × (held_in pointer p ≡ false)
        × ((q : ℕ) → held_in q r.1.pool ≡ (if has_it && pointer == q then true else held_in q p))

module _ (S : Server) where
  open S use {State}

  release_load-pool :
      (c : Shared) (worker_id : Text) (s : System State)
      → (release_load S c worker_id s).1.pool ≡ s.pool
  unfolding release_load tries balances
  release_load-pool c worker_id s = ground arith

  pub back :
      (p taken : RedisPool) (c : Shared)
      → Leased p taken (some c)
      → (q : ℕ) → held_in q (return_connection c.pointer taken) ≡ held_in q p
  back p taken c l q =
      let freed = (held-return_connection c.pointer q taken l.valid).1 in
      ground (arith, l.taken c refl q, l.was_free c refl)

  close :
      {A : Type 0} (has_it : Bool) (p taken : RedisPool) (c : Shared) (r : Result A × System State)
      → Leased p taken (some c)
      → usable_in (return_connection c.pointer taken) ≡ true
      → AfterClose has_it c taken r
      → Returned has_it p r
  close has_it p taken c (ok a, s') l again e = record {
    valid = subst IsValid (sym e) (held-return_connection c.pointer 0 taken l.valid).0;
    returns = λ b i q. ap (held_in q) e ∙ back p taken c l q;
    stays_usable = λ b i _. ap usable_in e ∙ again;
    throws = λ x i. absurd (ground arith);
  }
  close true p taken c (throw x, s') l again e = record {
    valid = subst IsValid (sym e) l.valid;
    returns = λ b i. absurd (ground arith);
    stays_usable = λ b i. absurd (ground arith);
    throws = λ y i. (c.pointer, l.was_free c refl, λ q. ap (held_in q) e ∙ l.taken c refl q);
  }
  close false p taken c (throw x, s') l again e = record {
    valid = subst IsValid (sym e) (held-return_connection c.pointer 0 taken l.valid).0;
    returns = λ b i. absurd (ground arith);
    stays_usable = λ b i. absurd (ground arith);
    throws = λ y i. (c.pointer, l.was_free c refl, λ q. ap (held_in q) e ∙ back p taken c l q);
  }

  pub with_connection-Returned :
      {A : Type 0} (has_it : Bool) (o : Surroundings) (a : A)
      (body : Shared → Exec (System State) A) (s : System State)
      → ((c : Shared) (s1 : System State) → AfterClose has_it c s1.pool (body c s1))
      → IsValid s.pool
      → Returned has_it s.pool (with_connection S o a body s)
  unfolding with_connection
  with_connection-Returned {A = A} has_it o a body s h v =
      found (get_connection o.attempts s.pool) (get_connection-Leased o.attempts s.pool v)
        (get_connection-found o.attempts s.pool) λ c. get_connection-usable o.attempts s.pool c v
    where
      found :
          (r : Option Shared × RedisPool)
          → Leased s.pool r.1 r.0
          → (usable_in s.pool ≡ true → found_any r.0 ≡ true)
          → ((c : Shared) → r.0 ≡ some c → usable_in (return_connection c.pointer r.1) ≡ true)
          → Returned {A = A} {State = State} has_it s.pool (elim r.0 [
            | none ↦ (ok a, record s { pool = r.1 })
            | some c ↦ body c (record s { pool = r.1 })
          ])
      found (none, p) l any again = record {
        valid = l.valid;
        returns = λ b i q. l.refused refl q;
        stays_usable = λ b i h. absurd (ground (arith, any h));
        throws = λ x i. absurd (ground arith);
      }
      found (some c, p) l any again =
          close has_it s.pool p c (body c (record s { pool = p })) l (again c refl)
            (h c (record s { pool = p }))

  pub submit_on-AfterClose :
      (o : Surroundings) (t : TaskRequest) (c : Shared) (s : System State)
      → AfterClose true c s.pool (submit_on S o t c s)
  unfolding submit_on give_back calls
  submit_on-AfterClose o t c s = ground arith

  pub pop_on-AfterClose :
      (o : Surroundings) (c : Shared) (s : System State) → AfterClose true c s.pool (pop_on S o c s)
  unfolding pop_on give_back calls
  pop_on-AfterClose o c s = ground arith

  pub assign_on-AfterClose :
      (o : Surroundings) (task_id worker_id : Text) (c : Shared) (s : System State)
      → AfterClose true c s.pool (assign_on S o task_id worker_id c s)
  unfolding assign_on give_back calls tries does balances
  assign_on-AfterClose o task_id worker_id c s = ground arith

  pub complete_on-AfterClose :
      (o : Surroundings) (task_id : Text) (result : TaskResult) (c : Shared) (s : System State)
      → AfterClose true c s.pool (complete_on S o task_id result c s)
  unfolding complete_on give_back calls tries does balances release_load
  complete_on-AfterClose o task_id result c s = ground arith

  pub fail_on-AfterClose :
      (o : Surroundings) (task_id error : Text) (c : Shared) (s : System State)
      → AfterClose true c s.pool (fail_on S o task_id error c s)
  unfolding fail_on give_back calls tries does balances release_load
  fail_on-AfterClose o task_id error c s = ground arith

  pub retry_on-AfterClose :
      (o : Surroundings) (task_id : Text) (c : Shared) (s : System State)
      → AfterClose true c s.pool (retry_on S o task_id c s)
  unfolding retry_on give_back calls tries balances release_load schedule_retry
  retry_on-AfterClose o task_id c s = ground arith

  pub retry_count_on-AfterClose :
      (o : Surroundings) (task_id : Text) (c : Shared) (s : System State)
      → AfterClose true c s.pool (retry_count_on S o task_id c s)
  unfolding retry_count_on give_back tries
  retry_count_on-AfterClose o task_id c s = ground arith

  pub status_on-AfterClose :
      (o : Surroundings) (task_id : Text) (c : Shared) (s : System State)
      → AfterClose false c s.pool (status_on S o task_id c s)
  unfolding status_on give_back calls
  status_on-AfterClose o task_id c s = ground arith

  pub info_on-AfterClose :
      (o : Surroundings) (task_id : Text) (c : Shared) (s : System State)
      → AfterClose true c s.pool (info_on S o task_id c s)
  unfolding info_on give_back tries
  info_on-AfterClose o task_id c s = ground arith

  pub size_on-AfterClose :
      (o : Surroundings) (priority : ℤ) (c : Shared) (s : System State)
      → AfterClose true c s.pool (size_on S o priority c s)
  unfolding size_on give_back calls
  size_on-AfterClose o priority c s = ground arith
