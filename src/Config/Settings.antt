-- ===== src/Config/Settings.antt =====
-- common/config_loader.h: the configurations of the services and their defaults.
use my_taskflow_system.Common.{Text, codes}
use my_taskflow_system.Common.Int.{ℤ, pos}

pub record GatewayConfig : Type 0 where
  pub port : ℤ
  pub log_level : Text
  pub scheduler_addr : Text
  pub log_dir : Text

abbrev pub default_gateway : GatewayConfig
default_gateway = record {
  port = pos 8080;
  log_level = codes "info";
  scheduler_addr = codes "localhost:50051";
  log_dir = codes "./logs";
}

pub record SchedulerConfig : Type 0 where
  pub port : ℤ
  pub load_balance : Text
  pub worker_check_interval : ℤ
  pub task_timeout_seconds : ℤ
  pub etcd_endpoints : Text
  pub redis_addr : Text
  pub log_level : Text
  pub log_dir : Text

abbrev pub default_scheduler : SchedulerConfig
default_scheduler = record {
  port = pos 50051;
  load_balance = codes "least_connection";
  worker_check_interval = pos 5;
  task_timeout_seconds = pos 60;
  etcd_endpoints = codes "localhost:2379";
  redis_addr = codes "localhost:6379";
  log_level = codes "info";
  log_dir = codes "./logs";
}

pub record WorkerConfig : Type 0 where
  pub id : ℤ
  pub port : ℤ
  pub address : Text
  pub scheduler_addr : Text
  pub etcd_endpoints : Text
  pub heartbeat_interval : ℤ
  pub max_concurrent_tasks : ℤ
  pub log_level : Text
  pub log_dir : Text

abbrev pub default_worker : WorkerConfig
default_worker = record {
  id = pos 1;
  port = pos 50052;
  address = codes "localhost";
  scheduler_addr = codes "localhost:50051";
  etcd_endpoints = codes "localhost:2379";
  heartbeat_interval = pos 5;
  max_concurrent_tasks = pos 10;
  log_level = codes "info";
  log_dir = codes "./logs";
}

pub record TrackerConfig : Type 0 where
  pub port : ℤ
  pub redis_addr : Text
  pub log_level : Text
  pub log_dir : Text

abbrev pub default_tracker : TrackerConfig
default_tracker = record {
  port = pos 50053;
  redis_addr = codes "localhost:6379";
  log_level = codes "info";
  log_dir = codes "./logs";
}

pub record StatsConfig : Type 0 where
  pub port : ℤ
  pub redis_addr : Text
  pub etcd_endpoints : Text
  pub collection_interval : ℤ
  pub log_level : Text
  pub log_dir : Text

abbrev pub default_stats : StatsConfig
default_stats = record {
  port = pos 50054;
  redis_addr = codes "localhost:6379";
  etcd_endpoints = codes "localhost:2379";
  collection_interval = pos 10;
  log_level = codes "info";
  log_dir = codes "./logs";
}
