-- ===== src/Redis/Client.antt =====
-- common/redis_client.cpp, connect to ttl: one method for each command.
use my_taskflow_system.Common.{
  Bool, true, false, not, ◌&&◌, Option, none, some, List, [], ◌∷◌, Text, c_str, if◌then◌else◌,
}
use my_taskflow_system.Common.Int.{ℤ, pos, negsuc, ltb_ℤ}
use my_taskflow_system.Common.Maps.{Map, put}
use my_taskflow_system.Redis.Server.{
  Server, Command, ReplyType, Reply, Element, set, setex, get, del, exists, lpush, rpush, lpop,
  rpop, lrange, llen, hset, hget, hmset, hgetall, hdel, hexists, incr, incrby, expire, ttl,
}

-- context_ is the pointer that it is not null; host_ and port_ only name the server.
pub record RedisClient : Type 0 where
  pub host : Text
  pub port : ℤ
  pub context : Bool
  pub connected : Bool

-- The constructor.
abbrev pub new_client : Text → ℤ → RedisClient
new_client host port = record { host = host; port = port; context = false; connected = false }

-- What redisConnectWithTimeout comes to: no context, one with an error, or a connection.
pub data Connection : Type 0 where
  no_context failed established : Connection

unfoldable pub connect_with : Connection → RedisClient → Bool × RedisClient
connect_with no_context c = (false, record c { context = false; connected = false })
connect_with failed c = (false, record c { context = false; connected = false })
connect_with established c = (true, record c { context = true; connected = true })

unfoldable pub connect : Connection → RedisClient → Bool × RedisClient
unfolding connect_with
connect a c = if c.connected && c.context then (true, c) else connect_with a c

unfoldable pub disconnect : RedisClient → RedisClient
disconnect c = record c { context = false; connected = false }

abbrev pub is_string : ReplyType → Bool
is_string ReplyType.string = true
is_string _ = false

abbrev pub is_array : ReplyType → Bool
is_array ReplyType.array = true
is_array _ = false

abbrev pub is_integer : ReplyType → Bool
is_integer ReplyType.integer = true
is_integer _ = false

abbrev pub is_error : ReplyType → Bool
is_error ReplyType.error = true
is_error _ = false

-- bool success = reply->type != REDIS_REPLY_ERROR; false without a reply.
abbrev pub succeeded : Option Reply → Bool
succeeded none = false
succeeded (some r) = not (is_error r.type)

-- The string of the reply, and "" for any other reply or none.
abbrev pub text_of : Option Reply → Text
text_of none = []
text_of (some r) = if is_string r.type then r.str else []

-- reply->type == REDIS_REPLY_INTEGER && reply->integer > 0
abbrev pub is_positive : Option Reply → Bool
is_positive none = false
is_positive (some r) = is_integer r.type && ltb_ℤ (pos 0) r.integer

-- The integer of the reply, and a default for any other reply or none.
abbrev pub number_or : ℤ → Option Reply → ℤ
number_or d none = d
number_or d (some r) = if is_integer r.type then r.integer else d

-- The test of del: type != REDIS_REPLY_INTEGER && integer > 0.
abbrev pub deleted : Option Reply → Bool
deleted none = false
deleted (some r) = not (is_integer r.type) && ltb_ℤ (pos 0) r.integer

abbrev pub strings : List Element → List Text
strings [] = []
strings (e ∷ es) = let rest = strings es in if is_string e.type then e.str ∷ rest else rest

abbrev pub texts_of : Option Reply → List Text
texts_of none = []
texts_of (some r) = if is_array r.type then strings r.element else []

-- The loop of hgetall over pairs of elements; a last element without a partner is left out.
abbrev pub pairs_from : List Element → Map Text → Map Text
pairs_from [] m = m
pairs_from (k ∷ []) m = m
pairs_from (k ∷ v ∷ es) m =
    pairs_from es (if is_string k.type && is_string v.type then put k.str v.str m else m)

abbrev pub pairs_of : Option Reply → Map Text
pairs_of none = []
pairs_of (some r) = if is_array r.type then pairs_from r.element [] else []

abbrev first {ℓ κ μ} : {A : Type ℓ} {B : Type κ} {C : Type μ} → (A → B) → A × C → B × C
first f (a, c) = (f a, c)

-- Every method sends one command and reads its reply; a client that is not connected returns what
-- a null reply does.
module _ (S : Server) (c : RedisClient) where
  open S use {State, command}

  unfoldable pub request : Command → State → Option Reply × State
  request cmd s = if c.connected then command cmd s else (none, s)

  unfoldable pub set_text : Text → Text → State → Bool × State
  unfolding request
  set_text k v s = first succeeded (request (set (c_str k) (c_str v)) s)

  unfoldable pub set_expiring : Text → Text → ℤ → State → Bool × State
  unfolding request
  set_expiring k v seconds s = first succeeded (request (setex (c_str k) seconds (c_str v)) s)

  unfoldable pub get_text : Text → State → Text × State
  unfolding request
  get_text k s = first text_of (request (get (c_str k)) s)

  unfoldable pub delete : Text → State → Bool × State
  unfolding request
  delete k s = first deleted (request (del (c_str k)) s)

  unfoldable pub key_exists : Text → State → Bool × State
  unfolding request
  key_exists k s = first is_positive (request (exists (c_str k)) s)

  unfoldable pub push_left : Text → Text → State → Bool × State
  unfolding request
  push_left k v s = first succeeded (request (lpush (c_str k) (c_str v)) s)

  unfoldable pub push_right : Text → Text → State → Bool × State
  unfolding request
  push_right k v s = first succeeded (request (rpush (c_str k) (c_str v)) s)

  unfoldable pub pop_left : Text → State → Text × State
  unfolding request
  pop_left k s = first text_of (request (lpop (c_str k)) s)

  unfoldable pub pop_right : Text → State → Text × State
  unfolding request
  pop_right k s = first text_of (request (rpop (c_str k)) s)

  unfoldable pub list_range : Text → ℤ → ℤ → State → List Text × State
  unfolding request
  list_range k start stop s = first texts_of (request (lrange (c_str k) start stop) s)

  unfoldable pub list_length : Text → State → ℤ × State
  unfolding request
  list_length k s = first (number_or (pos 0)) (request (llen (c_str k)) s)

  unfoldable pub hash_set : Text → Text → Text → State → Bool × State
  unfolding request
  hash_set k f v s = first succeeded (request (hset (c_str k) (c_str f) (c_str v)) s)

  unfoldable pub hash_get : Text → Text → State → Text × State
  unfolding request
  hash_get k f s = first text_of (request (hget (c_str k) (c_str f)) s)

  -- redisCommandArgv takes the lengths, so nothing is cut at a NUL.
  unfoldable pub hash_set_all : Text → Map Text → State → Bool × State
  unfolding request
  hash_set_all k [] s = (false, s)
  hash_set_all k (f ∷ fs) s = first succeeded (request (hmset k (f ∷ fs)) s)

  unfoldable pub hash_get_all : Text → State → Map Text × State
  unfolding request
  hash_get_all k s = first pairs_of (request (hgetall (c_str k)) s)

  unfoldable pub hash_delete : Text → Text → State → Bool × State
  unfolding request
  hash_delete k f s = first succeeded (request (hdel (c_str k) (c_str f)) s)

  unfoldable pub hash_exists : Text → Text → State → Bool × State
  unfolding request
  hash_exists k f s = first is_positive (request (hexists (c_str k) (c_str f)) s)

  unfoldable pub increment_key : Text → State → ℤ × State
  unfolding request
  increment_key k s = first (number_or (pos 0)) (request (incr (c_str k)) s)

  unfoldable pub increment_by : Text → ℤ → State → ℤ × State
  unfolding request
  increment_by k n s = first (number_or (pos 0)) (request (incrby (c_str k) n) s)

  unfoldable pub expire_in : Text → ℤ → State → Bool × State
  unfolding request
  expire_in k seconds s = first is_positive (request (expire (c_str k) seconds) s)

  unfoldable pub time_to_live : Text → State → ℤ × State
  unfolding request
  time_to_live k s = first (number_or (negsuc 0)) (request (ttl (c_str k)) s)
