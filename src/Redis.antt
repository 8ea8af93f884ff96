-- ===== src/Redis.antt =====
-- common/redis_client.cpp and redis_client.h: the client of the Redis server (Redis/Client.antt: the
-- commands; Redis/Tasks.antt: tasks, queues and loads on top of them) and the pool of connections
-- (Redis/Pool.antt). hiredis and the server are a parameter, Redis/Server.antt.
pub mod Server
pub mod Client
pub mod Tasks
pub mod Pool
pub mod Laws
pub mod RoundTrip
pub mod Lists
pub mod Queues
pub mod Answers
pub mod Status
pub mod Loads
pub mod Ranges
pub mod Facts
pub mod Carry
pub mod Claims
pub mod Leases
pub mod Usable
pub mod Sample
mod Tests
