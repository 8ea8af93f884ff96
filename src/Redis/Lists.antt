-- ===== src/Redis/Lists.antt =====
-- The three queues of the specification, and the commands on lists that common/redis_client.cpp
-- keeps them with.
use my_taskflow_system.Common.{
  ◌≡◌, true, false, some, List, [], ◌∷◌, ◌++◌, Text, text_eq, c_str, codes, is_empty, All,
  if◌then◌else◌,
}
use my_taskflow_system.Common.Int.{ℤ, pos, eq_ℤ}
use my_taskflow_system.Redis.Server.{Server}
use my_taskflow_system.Redis.Client.{RedisClient, push_right, pop_left}
use my_taskflow_system.Redis.Laws.{as_list, RedisLaws}
use my_taskflow_system.Redis.RoundTrip.{request_ran}

-- The specification: three queues, served by priority and each first in, first out.
pub record Queues : Type 0 where
  pub high : List Text
  pub medium : List Text
  pub low : List Text

pub data Level : Type 0 where
  is_high is_medium is_low : Level

abbrev pub level : ℤ → Level
level p = if eq_ℤ p (pos 2) then is_high else if eq_ℤ p (pos 1) then is_medium else is_low

abbrev pub push_at : Level → Text → Queues → Queues
push_at is_high x q = record q { high = q.high ++ x ∷ [] }
push_at is_medium x q = record q { medium = q.medium ++ x ∷ [] }
push_at is_low x q = record q { low = q.low ++ x ∷ [] }

-- Priority 2 is high, 1 medium, any other low.
abbrev pub push_spec : ℤ → Text → Queues → Queues
push_spec p = push_at (level p)

abbrev pub pop_lists : List Text → List Text → List Text → Text × Queues
pop_lists (x ∷ h) m l = (x, record { high = h; medium = m; low = l })
pop_lists [] (x ∷ m) l = (x, record { high = []; medium = m; low = l })
pop_lists [] [] (x ∷ l) = (x, record { high = []; medium = []; low = l })
pop_lists [] [] [] = ([], record { high = []; medium = []; low = [] })

abbrev pub pop_spec : Queues → Text × Queues
pop_spec q = pop_lists q.high q.medium q.low

-- No queue holds an empty id.
abbrev pub NonEmpty : List Text → Type 0
NonEmpty = All (λ x. is_empty x ≡ false)

pub record Fit (q : Queues) : Type 0 where
  pub high_ids : NonEmpty q.high
  pub medium_ids : NonEmpty q.medium
  pub low_ids : NonEmpty q.low

-- The three keys hold the three queues.
pub record Holds (S : Server) (laws : RedisLaws S) (s : S.State) (q : Queues) : Type 0 where
  pub high_list : as_list (laws.view s (codes "queue:high")) ≡ some q.high
  pub medium_list : as_list (laws.view s (codes "queue:medium")) ≡ some q.medium
  pub low_list : as_list (laws.view s (codes "queue:low")) ≡ some q.low

module _ (S : Server) (laws : RedisLaws S) (c : RedisClient) (up : c.connected ≡ true) where
  open S use {State}

  pub push_right-view :
      (k x : Text) (s : State) (xs : List Text)
      → c_str k ≡ k
      → c_str x ≡ x
      → as_list (laws.view s k) ≡ some xs
      → ((push_right S c k x s).0 ≡ true)
        × (as_list (laws.view (push_right S c k x s).1 k) ≡ some (xs ++ x ∷ []))
        × ((j : Text) → text_eq k j ≡ false → laws.view (push_right S c k x s).1 j ≡ laws.view s j)
  unfolding push_right
  push_right-view k x s xs ck cx h =
      let r = laws.rpush_law k x s xs h in
      rw (ck, cx, request_ran S laws c up r) (rw r.described.0, r.described.1, r.others)

  pub pop_left-view :
      (k x : Text) (s : State) (xs : List Text)
      → c_str k ≡ k
      → as_list (laws.view s k) ≡ some (x ∷ xs)
      → ((pop_left S c k s).0 ≡ x)
        × (as_list (laws.view (pop_left S c k s).1 k) ≡ some xs)
        × ((j : Text) → text_eq k j ≡ false → laws.view (pop_left S c k s).1 j ≡ laws.view s j)
  unfolding pop_left
  pop_left-view k x s xs ck h =
      let r = laws.lpop_law k x s xs h in
      rw (ck, request_ran S laws c up r) (rw r.described.0 r.described.1, r.described.2, r.others)

  pub pop_left-empty :
      (k : Text) (s : State)
      → c_str k ≡ k
      → as_list (laws.view s k) ≡ some []
      → ((pop_left S c k s).0 ≡ [])
        × (as_list (laws.view (pop_left S c k s).1 k) ≡ some [])
        × ((j : Text) → text_eq k j ≡ false → laws.view (pop_left S c k s).1 j ≡ laws.view s j)
  unfolding pop_left
  pop_left-empty k s ck h =
      let r = laws.lpop_empty_law k s h in
      rw (ck, request_ran S laws c up r) (rw r.described.0, r.described.1, r.others)
