-- ===== src/Redis/Pool.antt =====
-- common/redis_client.cpp, RedisPool: connections that are handed out and come back. The pool's mutex
-- serialises the methods. A shared_ptr is the number of the object that it points to.
use my_taskflow_system.Common.{
  ℕ, suc, ◌==◌, Bool, true, false, Option, none, some, List, [], ◌∷◌, ◌++◌, Text, length,
  if◌then◌else◌,
}
use my_taskflow_system.Common.Int.{ℤ}
use my_taskflow_system.Redis.Client.{RedisClient, Connection, new_client, connect}

pub record Shared : Type 0 where
  pub pointer : ℕ
  pub client : RedisClient

-- next_pointer is the next object that make_shared allocates.
pub record RedisPool : Type 0 where
  pub host : Text
  pub port : ℤ
  pub pool_size : ℕ
  pub pool : List Shared
  pub in_use : List Bool
  pub next_pointer : ℕ

-- The loop of the constructor: the outcome of each connect() is an argument.
unfoldable pub open_clients : List Connection → RedisPool → RedisPool
open_clients [] p = p
open_clients (a ∷ as') p =
    let (connected, c) = connect a (new_client p.host p.port) in
    open_clients as' (
      if connected
      then record p {
        pool = p.pool ++ record { pointer = p.next_pointer; client = c } ∷ [];
        in_use = p.in_use ++ false ∷ [];
        next_pointer = suc p.next_pointer;
      }
      else record p { next_pointer = suc p.next_pointer })

-- The constructor; pool_size is the number of outcomes.
unfoldable pub new_pool : Text → ℤ → List Connection → RedisPool
unfolding open_clients
new_pool host port outcomes = open_clients outcomes (record {
  host = host;
  port = port;
  pool_size = length outcomes;
  pool = [];
  in_use = [];
  next_pointer = 0;
})

abbrev pub Claim : Type 0
Claim = Option Shared × List Shared × List Bool

abbrev pub skip : Shared → Bool → Claim → Claim
skip s u (found, ss, us) = (found, s ∷ ss, u ∷ us)

-- The loop of getConnection; `attempts i` is what a connect() on the i-th client comes to.
unfoldable pub claim : (ℕ → Connection) → ℕ → List Shared → List Bool → Claim
claim attempts i [] us = (none, [], us)
claim attempts i (s ∷ ss) [] = (none, s ∷ ss, [])
claim attempts i (s ∷ ss) (u ∷ us) =
    let rest = claim attempts (suc i) ss us in
    let tried = record s { client = (connect (attempts i) s.client).1 } in
    if u
    then skip s u rest
    else if s.client.connected
    then (some s, s ∷ ss, true ∷ us)
    else if (connect (attempts i) s.client).0
    then (some tried, tried ∷ ss, true ∷ us)
    else skip tried u rest

-- The rest of getConnection: without a free connection it makes a new object and connects it.
unfoldable pub settle : Connection → RedisPool → Claim → Option Shared × RedisPool
settle a p (some s, ss, us) = (some s, record p { pool = ss; in_use = us })
settle a p (none, ss, us) =
    let (connected, c) = connect a (new_client p.host p.port) in
    let made : Shared = record { pointer = p.next_pointer; client = c } in
    if connected
    then (
      some made,
      record p {
        pool = ss ++ made ∷ [];
        in_use = us ++ true ∷ [];
        next_pointer = suc p.next_pointer;
      },
    )
    else (none, record p { pool = ss; in_use = us; next_pointer = suc p.next_pointer })

unfoldable pub get_connection : (ℕ → Connection) → RedisPool → Option Shared × RedisPool
unfolding claim settle
get_connection attempts p = settle (attempts (length p.pool)) p (claim attempts 0 p.pool p.in_use)

-- The loop of returnConnection.
unfoldable pub release : ℕ → List Shared → List Bool → List Bool
release pointer [] us = us
release pointer (s ∷ ss) [] = []
release pointer (s ∷ ss) (u ∷ us) =
    let rest = release pointer ss us in if s.pointer == pointer then false ∷ us else u ∷ rest

unfoldable pub return_connection : ℕ → RedisPool → RedisPool
unfolding release
return_connection pointer p = record p { in_use = release pointer p.pool p.in_use }

-- The destructor clears pool_ alone.
unfoldable pub destroy : RedisPool → RedisPool
destroy p = record p { pool = [] }

unfoldable pub count_used : List Bool → ℕ
count_used [] = 0
count_used (u ∷ us) = if u then suc (count_used us) else count_used us

unfoldable pub get_active_connections : RedisPool → ℕ
unfolding count_used
get_active_connections p = count_used p.in_use
