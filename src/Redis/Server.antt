-- ===== src/Redis/Server.antt =====
-- What common/redis_client.cpp uses of hiredis and of the Redis server: the commands that it sends
-- and the replies. The server with the connection to it is a parameter: a state, and what a command
-- does to it; no reply is the null pointer of redisCommand.
use my_taskflow_system.Common.{Option, List, Text}
use my_taskflow_system.Common.Int.{ℤ}
use my_taskflow_system.Common.Maps.{Map}

-- The arguments as they reach the server.
pub data Command : Type 0 where
  set : Text → Text → Command
  setex : Text → ℤ → Text → Command
  get del exists lpop rpop llen hgetall incr ttl : Text → Command
  lpush rpush : Text → Text → Command
  lrange : Text → ℤ → ℤ → Command
  hset : Text → Text → Text → Command
  hget hdel hexists : Text → Text → Command
  hmset : Text → Map Text → Command
  incrby expire : Text → ℤ → Command

-- REDIS_REPLY_STRING and so on.
pub data ReplyType : Type 0 where
  string array integer nil status error : ReplyType

pub record Element : Type 0 where
  pub type : ReplyType
  pub str : Text

-- redisReply
pub record Reply : Type 0 where
  pub type : ReplyType
  pub integer : ℤ
  pub str : Text
  pub element : List Element

pub record Server : Type 1 where
  pub State : Type 0
  pub command : Command → State → Option Reply × State
