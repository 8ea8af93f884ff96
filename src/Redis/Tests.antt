-- ===== src/Redis/Tests.antt =====
-- The Redis client and its pool at concrete inputs, with the server of Redis/Sample.antt.
use my_taskflow_system.Common.{
  ap, ◌≡◌, refl, true, some, [], ◌∷◌, Text, codes, c_str, text_eq, arith, if◌then◌else◌,
}
use my_taskflow_system.Common.Int.{pos, negsuc}
use my_taskflow_system.Common.Exec.{Every, ok}
use my_taskflow_system.Redis.Server.{del, Reply, ReplyType}
use my_taskflow_system.Redis.Client.{hash_get_all, RedisClient, established, no_context, connect}
use my_taskflow_system.Redis.Tasks.{task_key, TaskInfo, Memory, save_task, get_task}
use my_taskflow_system.Redis.Pool.{RedisPool, new_pool, get_connection}
use my_taskflow_system.Redis.Laws.{as_hash, absent, text_value, list_value}
use my_taskflow_system.Redis.RoundTrip.{IsTask, get_task-save_task}
use my_taskflow_system.Redis.Lists.{Queues, Fit, Holds}
use my_taskflow_system.Redis.Ranges.{IsMemory, IsTaskOf, get_task-IsTaskOf}
use my_taskflow_system.Redis.Claims.{IsValid}
use my_taskflow_system.Redis.Leases.{Leased, get_connection-Leased}
use my_taskflow_system.Redis.Sample.{Store, sample, sample_laws}

abbrev client : RedisClient
client = record { host = codes "localhost"; port = pos 6379; context = true; connected = true }

abbrev t1 : Text
t1 = codes "t1"

abbrev w1 : Text
w1 = codes "w1"

abbrev mem : Memory
mem = record {
  type = pos 77;
  priority = pos 77;
  created_at = negsuc 0;
  started_at = pos 5;
  finished_at = pos 5;
  status = pos 99;
  retry_count = pos 1234;
}

abbrev task : TaskInfo
task = record {
  id = t1;
  type = pos 2;
  priority = pos 1;
  payload = codes "{}";
  created_at = pos 1700000000000;
  started_at = pos 0;
  finished_at = negsuc 6;
  status = pos 0;
  retry_count = pos 0;
  error_message = [];
  result = [];
}

task-IsTask : IsTask task
task-IsTask = omega arith

-- A list in the high and in the low queue, and a load.
abbrev store : Store
store k =
    if text_eq k (codes "queue:high")
    then list_value (codes "h1" ∷ [])
    else if text_eq k (codes "queue:low")
    then list_value (t1 ∷ [])
    else if text_eq k (codes "worker:load:w1")
    then text_value (codes "2")
    else absent

abbrev queues : Queues
queues = record { high = codes "h1" ∷ []; medium = []; low = t1 ∷ [] }

t1_plain : c_str t1 ≡ t1
unfolding c_str
t1_plain = refl

w1_plain : c_str w1 ≡ w1
unfolding c_str
w1_plain = refl

store-Holds : Holds sample sample_laws store queues
unfolding text_eq
store-Holds = record { high_list = refl; medium_list = refl; low_list = refl }

queues-Fit : Fit queues
queues-Fit = record { high_ids = (refl, tt); medium_ids = tt; low_ids = (refl, tt) }

no_task : sample_laws.view store (codes "task:t1") ≡ absent
unfolding text_eq
no_task = refl

get_task-save_task_example :
    ((save_task sample client task store).0 ≡ true)
    × ((get_task sample client mem t1 (save_task sample client task store).1).0 ≡ ok task)
get_task-save_task_example =
    get_task-save_task sample sample_laws client refl mem task store [] task-IsTask t1_plain
      (ap as_hash no_task)

abbrev one : Reply
one = record { type = ReplyType.integer; integer = pos 1; str = []; element = [] }

abbrev emptied : Store
emptied j = if text_eq (codes "queue:high") j then absent else store j

deletes : sample.command (del (c_str (codes "queue:high"))) store ≡ (some one, emptied)
unfolding c_str
deletes = refl

abbrev two : RedisPool
two = new_pool (codes "localhost") (pos 6379) (established ∷ no_context ∷ established ∷ [])

two-IsValid : IsValid two
unfolding new_pool connect
two-IsValid = ground arith

get_connection-Leased_example :
    Leased two (get_connection (λ _. established) two).1 (get_connection (λ _. established) two).0
get_connection-Leased_example = get_connection-Leased (λ _. established) two two-IsValid

abbrev taken : RedisPool
taken = (get_connection (λ _. established) two).1

no_message : c_str [] ≡ []
unfolding c_str
no_message = refl

mem-IsMemory : IsMemory mem
mem-IsMemory = omega arith

get_task-IsTaskOf_example :
    Every
      (IsTaskOf mem t1 (hash_get_all sample client (task_key t1) store).0)
      (get_task sample client mem t1 store).0
get_task-IsTaskOf_example = get_task-IsTaskOf sample client mem t1 store mem-IsMemory
