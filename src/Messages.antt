-- ===== src/Messages.antt =====
-- proto/taskflow.proto: the messages between the services, as C++ sees them. A field that is not set
-- has its default; an enumeration is its number, since proto3 keeps numbers that it does not know.
use my_taskflow_system.Common.{Bool, List, [], Text}
use my_taskflow_system.Common.Int.{ℤ, pos}

pub record Task : Type 0 where
  pub id : Text
  pub type : ℤ
  pub priority : ℤ
  pub payload : Text
  pub created_at : ℤ
  pub started_at : ℤ
  pub finished_at : ℤ
  pub status : ℤ
  pub retry_count : ℤ
  pub error_message : Text
  pub result : Text

abbrev pub unset_task : Task
unset_task = record {
  id = [];
  type = pos 0;
  priority = pos 0;
  payload = [];
  created_at = pos 0;
  started_at = pos 0;
  finished_at = pos 0;
  status = pos 0;
  retry_count = pos 0;
  error_message = [];
  result = [];
}

pub record SubmitTaskRequest : Type 0 where
  pub type : ℤ
  pub priority : ℤ
  pub payload : Text

abbrev pub unset_request : SubmitTaskRequest
unset_request = record { type = pos 0; priority = pos 0; payload = [] }

pub record SubmitTaskReply : Type 0 where
  pub success : Bool
  pub task_id : Text
  pub message : Text

-- TaskStatusReply and QueryTaskReply.
pub record TaskReply : Type 0 where
  pub success : Bool
  pub task : Task
  pub message : Text

pub record ExecuteTaskRequest : Type 0 where
  pub task_id : Text
  pub type : ℤ
  pub payload : Text
  pub timeout_seconds : ℤ

pub record ExecuteTaskReply : Type 0 where
  pub success : Bool
  pub task_id : Text
  pub result : Text
  pub error_message : Text

pub record HeartbeatRequest : Type 0 where
  pub worker_id : Text
  pub current_load : ℤ
  pub status : Text
  pub timestamp : ℤ

-- HeartbeatReply and RegisterWorkerReply.
pub record PlainReply : Type 0 where
  pub success : Bool
  pub message : Text

pub record RegisterWorkerRequest : Type 0 where
  pub worker_id : Text
  pub address : Text
  pub port : ℤ

pub record WorkerInfo : Type 0 where
  pub worker_id : Text
  pub address : Text
  pub port : ℤ
  pub current_load : ℤ
  pub status : Text
  pub last_heartbeat : ℤ

-- The average execution time, a double, is only ever set to 0.
pub record WorkerStats : Type 0 where
  pub worker_id : Text
  pub total_tasks : ℤ
  pub success_tasks : ℤ
  pub failed_tasks : ℤ
  pub avg_execution_time_ms : ℤ

pub record GetStatsReply : Type 0 where
  pub total_tasks : ℤ
  pub pending_tasks : ℤ
  pub running_tasks : ℤ
  pub success_tasks : ℤ
  pub failed_tasks : ℤ
  pub worker_stats : List WorkerStats
  pub timestamp : ℤ
