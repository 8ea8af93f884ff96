-- ===== src/Config/Loader.antt =====
-- common/config_loader.cpp, and getPath of config_loader.h. yaml-cpp is a parameter: its nodes are
-- references into a memory that its operations change, an assignment to a node included; a call
-- that throws gives none.
use my_taskflow_system.Common.{
  Bool, false, Option, none, some, List, [], ◌∷◌, Text, codes, ◌==◌, if◌then◌else◌,
}
use my_taskflow_system.Common.Int.{ℤ, pos}
use my_taskflow_system.Common.Search.{put_first}
use my_taskflow_system.Config.Settings.{
  GatewayConfig, SchedulerConfig, StatsConfig, TrackerConfig, WorkerConfig, default_gateway,
  default_scheduler, default_stats, default_tracker, default_worker,
}

pub record Yaml : Type 1 where
  pub Memory : Type 0
  pub Node : Type 0
  -- YAML::LoadFile
  pub load_file : Text → Memory → Option Node × Memory
  -- node[key]
  pub child : Node → Text → Memory → Option Node × Memory
  -- node = other: what the variable refers to afterwards.
  pub assign : Node → Node → Memory → Option Node × Memory
  -- !!node
  pub is_defined : Node → Memory → Bool
  -- node.as<int>() and node.as<std::string>()
  pub as_int : Node → Memory → Option ℤ
  pub as_text : Node → Memory → Option Text

-- The parts of a path: what stands before, between and after its dots.
unfoldable pub path_parts : Text → List Text
path_parts [] = [] ∷ []
path_parts (c ∷ s) = let rest = path_parts s in if c == b'.' then [] ∷ rest else put_first c rest

abbrev or_default : {A : Type 0} → A → Option A → A
or_default d none = d
or_default d (some a) = a

module _ (Y : Yaml) where
  open Y use {Memory, Node}

  -- The loop of getPath and the node[key] after it; none: an exception on the way.
  unfoldable pub walk : Node → List Text → Memory → Option Node × Memory
  walk node [] m = (some node, m)
  walk node (key ∷ []) m = Y.child node key m
  walk node (part ∷ next ∷ parts) m =
      let (below, m1) = Y.child node part m in
      elim below [
        | none ↦ (none, m1)
        | some n ↦
            (let (moved, m2) = Y.assign node n m1 in
              elim moved [ none ↦ (none, m2) | some n' ↦ walk n' (next ∷ parts) m2 ])
      ]

  -- getPath<T>, by the conversion to T; node starts as a copy of config_, which refers to the same.
  unfoldable pub get_path :
      {A : Type 0} → (Node → Memory → Option A) → Node → Text → A → Memory → A × Memory
  unfolding walk path_parts
  get_path conv config path default_value m =
      let (found, m') = walk config (path_parts path) m in
      (elim found [ none ↦ default_value | some n ↦ or_default default_value (conv n m') ], m')

  -- getPath<int> and getPath<std::string>
  unfoldable pub get_int : Node → Text → ℤ → Memory → ℤ × Memory
  unfolding get_path
  get_int = get_path Y.as_int

  unfoldable pub get_text : Node → Text → Text → Memory → Text × Memory
  unfolding get_path
  get_text = get_path Y.as_text

  -- hasKey
  unfoldable pub has_parts : Node → List Text → Memory → Bool × Memory
  has_parts node [] m = (false, m)
  has_parts node (key ∷ []) m =
      let (below, m1) = Y.child node key m in
      (elim below [ none ↦ false | some n ↦ Y.is_defined n m1 ], m1)
  has_parts node (part ∷ next ∷ parts) m =
      let (below, m1) = Y.child node part m in
      let (again, m2) = Y.child node part m1 in
      let descended : Bool × Memory = elim again [
        | none ↦ (false, m2)
        | some n ↦
            (let (moved, m3) = Y.assign node n m2 in
              elim moved [ none ↦ (false, m3) | some n' ↦ has_parts n' (next ∷ parts) m3 ])
      ] in
      elim below [
        | none ↦ (false, m1)
        | some n ↦ if Y.is_defined n m1 then descended else (false, m1)
      ]

  unfoldable pub has_key : Node → Text → Memory → Bool × Memory
  unfolding has_parts path_parts
  has_key config key m = has_parts config (path_parts key) m

  -- ConfigLoader loader; if (!loader.load(config_path)) return the default; the rest of a loader.
  unfoldable pub load : {A : Type 0} → Text → A → (Node → Memory → A × Memory) → Memory → A × Memory
  load config_path otherwise read m =
      let (found, m') = Y.load_file config_path m in
      elim found [ none ↦ (otherwise, m') | some config ↦ read config m' ]

  unfoldable pub load_gateway_config : Text → Memory → GatewayConfig × Memory
  unfolding load get_int get_text
  load_gateway_config config_path = load config_path default_gateway λ c m.
      let (port, m1) = get_int c (codes "gateway.port") (pos 8080) m in
      let (log_level, m2) = get_text c (codes "gateway.log_level") (codes "info") m1 in
      let (scheduler_addr, m3) =
        get_text c (codes "gateway.scheduler_addr") (codes "localhost:50051") m2 in
      let (log_dir, m4) = get_text c (codes "gateway.log_dir") (codes "./logs") m3 in
      (
        record {
          port = port;
          log_level = log_level;
          scheduler_addr = scheduler_addr;
          log_dir = log_dir;
        },
        m4,
      )

  unfoldable pub load_scheduler_config : Text → Memory → SchedulerConfig × Memory
  unfolding load get_int get_text
  load_scheduler_config config_path = load config_path default_scheduler λ c m.
      let (port, m1) = get_int c (codes "scheduler.port") (pos 50051) m in
      let (load_balance, m2) =
        get_text c (codes "scheduler.load_balance") (codes "least_connection") m1 in
      let (interval, m3) = get_int c (codes "scheduler.worker_check_interval") (pos 5) m2 in
      let (timeout, m4) = get_int c (codes "scheduler.task_timeout_seconds") (pos 60) m3 in
      let (etcd, m5) = get_text c (codes "scheduler.etcd_endpoints") (codes "localhost:2379") m4 in
      let (redis, m6) = get_text c (codes "scheduler.redis_addr") (codes "localhost:6379") m5 in
      let (log_level, m7) = get_text c (codes "scheduler.log_level") (codes "info") m6 in
      let (log_dir, m8) = get_text c (codes "scheduler.log_dir") (codes "./logs") m7 in
      (
        record {
          port = port;
          load_balance = load_balance;
          worker_check_interval = interval;
          task_timeout_seconds = timeout;
          etcd_endpoints = etcd;
          redis_addr = redis;
          log_level = log_level;
          log_dir = log_dir;
        },
        m8,
      )

  unfoldable pub load_worker_config : Text → Memory → WorkerConfig × Memory
  unfolding load get_int get_text
  load_worker_config config_path = load config_path default_worker λ c m.
      let (id, m1) = get_int c (codes "worker.id") (pos 1) m in
      let (port, m2) = get_int c (codes "worker.port") (pos 50052) m1 in
      let (address, m3) = get_text c (codes "worker.address") (codes "localhost") m2 in
      let (scheduler, m4) =
        get_text c (codes "worker.scheduler_addr") (codes "localhost:50051") m3 in
      let (etcd, m5) = get_text c (codes "worker.etcd_endpoints") (codes "localhost:2379") m4 in
      let (interval, m6) = get_int c (codes "worker.heartbeat_interval") (pos 5) m5 in
      let (tasks, m7) = get_int c (codes "worker.max_concurrent_tasks") (pos 10) m6 in
      let (log_level, m8) = get_text c (codes "worker.log_level") (codes "info") m7 in
      let (log_dir, m9) = get_text c (codes "worker.log_dir") (codes "./logs") m8 in
      (
        record {
          id = id;
          port = port;
          address = address;
          scheduler_addr = scheduler;
          etcd_endpoints = etcd;
          heartbeat_interval = interval;
          max_concurrent_tasks = tasks;
          log_level = log_level;
          log_dir = log_dir;
        },
        m9,
      )

  unfoldable pub load_tracker_config : Text → Memory → TrackerConfig × Memory
  unfolding load get_int get_text
  load_tracker_config config_path = load config_path default_tracker λ c m.
      let (port, m1) = get_int c (codes "tracker.port") (pos 50053) m in
      let (redis, m2) = get_text c (codes "tracker.redis_addr") (codes "localhost:6379") m1 in
      let (log_level, m3) = get_text c (codes "tracker.log_level") (codes "info") m2 in
      let (log_dir, m4) = get_text c (codes "tracker.log_dir") (codes "./logs") m3 in
      (record { port = port; redis_addr = redis; log_level = log_level; log_dir = log_dir }, m4)

  -- The endpoints of etcd are not read.
  unfoldable pub load_stats_config : Text → Memory → StatsConfig × Memory
  unfolding load get_int get_text
  load_stats_config config_path = load config_path default_stats λ c m.
      let (port, m1) = get_int c (codes "stats.port") (pos 50054) m in
      let (redis, m2) = get_text c (codes "stats.redis_addr") (codes "localhost:6379") m1 in
      let (interval, m3) = get_int c (codes "stats.collection_interval") (pos 10) m2 in
      let (log_level, m4) = get_text c (codes "stats.log_level") (codes "info") m3 in
      let (log_dir, m5) = get_text c (codes "stats.log_dir") (codes "./logs") m4 in
      (
        record default_stats {
          port = port;
          redis_addr = redis;
          collection_interval = interval;
          log_level = log_level;
          log_dir = log_dir;
        },
        m5,
      )
