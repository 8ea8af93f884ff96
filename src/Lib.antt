-- ===== src/Lib.antt =====
-- TaskFlow: a task queue on Redis with a scheduler that hands tasks to workers.
--
-- The program. A gateway (src/gateway.cpp, src/gateway/http_handler.cpp) takes tasks over HTTP and
-- calls the scheduler (src/scheduler.cpp), which gives each an id of the Snowflake generator
-- (src/common/snowflake.cpp). The scheduler keeps tasks, three priority queues and the loads of
-- the workers in Redis, through a client and a pool of connections (src/common/redis_client.cpp),
-- and chooses a worker with the load balancer (src/scheduler/load_balancer.cpp), which asks a
-- circuit breaker for each worker (src/common/circuit_breaker.cpp). Workers (src/worker.cpp)
-- register themselves in etcd (src/common/etcd_client.cpp), where the scheduler finds them; a
-- tracker (src/tracker.cpp) and a service for statistics (src/stats.cpp) read from Redis.
--
-- The files.
--   Common: texts as lists of bytes, bags of them, signed integers, std::map as the ordered list
--     of its entries, exceptions as values, std::to_string, std::stoi and std::stoll, and the
--     searches in texts that std::string::find and the regular expressions make.
--   Breaker: circuit_breaker.cpp. allowRequest is allow_request, recordSuccess record_success,
--     recordFailure record_failure; the steady clock is an argument in nanoseconds. Transitions
--     has the calls as steps, Runs sequences of them, Manager the class CircuitBreakerManager.
--   Snowflake: snowflake.cpp. nextId is next_id on the list of the clock's readings; Generator has
--     the fields of an id, Ids the ids of many calls.
--   Balancer: load_balancer.cpp, one function for each method (updateWorkers is update_workers,
--     selectWorker select_worker, and so on): Model has the workers and their breakers, Strategies
--     the selections. The clock readings of a call are a function of the worker for which they are
--     taken; std::sort is a parameter. Workers and Pairing are about the two maps, Selection about
--     the workers that may be chosen, Choice and Rotation about the one that is.
--   Redis: redis_client.cpp. Server has the commands and replies, with the server as a parameter;
--     Client one method for each command (set_text for set, get_text for get, delete for del, and
--     so on), Tasks the methods on tasks, queues and loads, Pool the class RedisPool. Laws states
--     what Redis documents of the commands that the proofs use; Sample is a server that keeps it.
--     RoundTrip, Ranges and Status are about the fields of a task (Ranges where getTask has them from), Lists and Queues about the
--     three lists, Loads about the load of a worker, Answers about what is missing, Claims and
--     Leases about who holds a connection and Usable about when there is one. Facts has what Redis
--     holds of a task, a worker and the queues at once, and Carry what each method makes of that.
--   Dispatcher: src/scheduler/task_dispatcher.cpp, one function for each method of TaskDispatcher
--     in Methods, on the state of the server, the pool and the load balancer in Model.
--     with_connection is the getConnection() that each begins with, and a function with a name in
--     _on what it does with the connection. Surroundings has what a call finds around it:
--     connect() outcomes, clocks, memory. Closing and Connections follow the connections of the
--     pool, Submission a task into and out of its queue, Retries the answers of retryTask and
--     getTaskStatus. Effects, Endings and Requeue have what each method leaves of a task and of
--     the load of its worker; LifeCycle follows a task from submitTask to completeTask, Again from
--     failTask to retryTask. Traffic has any sequence of submissions and pops, Conservation
--     compares it with three plain queues. In Interleaving the commands of calls that overlap are
--     steps (Marks: the fields that assignTaskToWorker writes), Marking and Overlap have their
--     invariant, and Commands shows that a call of submitTask or of popNextTask without
--     interruption is such steps.
--   Messages: proto/taskflow.proto, the messages as records.
--   Etcd: etcd_client.cpp. Server has curl with etcd behind it as a parameter; Codec is
--     encodeValue and decodeValue, Client the class EtcdClient on keys and leases (put_value for
--     put, get_value for get, delete_key for del), Services the same class on services, Registry
--     the class ServiceRegistry. RoundTrip is about the value of a service, written and read back.
--   Scheduler: scheduler.cpp. The gRPC handlers are submit_task_rpc, get_task_status_rpc and so
--     on; in Loops, check_round and dispatch_round are one round of workerCheckLoop and
--     taskDispatchLoop; in Start, redis_port, join_etcd and sync_round are parts of main.
--     Heartbeats is about a round of the check, Dispatch and Assignment about a round of the
--     dispatch without and with a worker, Journey about a task that is asked for, and Address
--     about the address of Redis.
--   Gateway: http_handler.cpp in Query, Body and Handler, with the stub of the scheduler as a
--     parameter, and handleConnection of gateway.cpp in Connection. QueryRoundTrip is about query
--     strings, RequestLines and RequestRoundTrip about requests that are written and read,
--     Fields and Lookups about what the expressions find in a JSON object, Delivery about what the
--     scheduler is asked for, Reasons and Responses about the status of every answer.
--   Config: config_loader.cpp and config_loader.h, the configurations in Settings; in Loader, with
--     yaml-cpp as a parameter, getPath is get_path, and there is one loader for each service.
--     Sharing has what getPath does to the nodes.
--   Worker: worker.cpp, ExecuteTask and what it calls, and one round of heartbeatLoop; Start is
--     what main makes of its arguments and its file. Load has the handlers that run at the same
--     time (advance is the next step of one), Durations the time that a task sleeps, Arguments the
--     options of the command line.
--   Queries: QueryTask of tracker.cpp and GetStats of stats.cpp; Agreement compares the first with
--     the scheduler's GetTaskStatus, Pending is about the second.
--
-- Bounds. An int or int64_t that is printed and read back is bounded by a hypothesis. Printing has
-- 20 digits of fuel, which is enough for 64 bits. A std::atomic<int> wraps. The wait of the
-- generator goes through the given readings and says when they end before the wait does. Time
-- stamps of ids are below the year 2090, where 41 bits end.
--
-- Not modelled. Logging, sockets, threads and gRPC; a mutex makes each method one step. Of the
-- dispatcher, which has no lock, submitTask, popNextTask and the writes of assignTaskToWorker to
-- the task are also taken apart into commands; the other methods run from beginning to end. The values of a `redisReply` are as
-- hiredis gives them; memory is not modelled, but the numbers of a TaskInfo or a ServiceInfo that
-- is not initialised are arguments. An exception of a gRPC handler is its result, and what gRPC
-- makes of it is not modelled. The limits of std::regex on long texts are not modelled. Of the
-- main functions, only what decides something is modelled: the arguments of a worker, the address
-- of Redis, the registrations in etcd and the loop of the scheduler.
pub mod Balancer
pub mod Breaker
pub mod Common
pub mod Config
pub mod Dispatcher
pub mod Etcd
pub mod Gateway
pub mod Messages
pub mod Queries
pub mod Redis
pub mod Scheduler
pub mod Snowflake
pub mod Worker
