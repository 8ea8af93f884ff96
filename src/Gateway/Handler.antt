-- ===== src/Gateway/Handler.antt =====
-- gateway/http_handler.cpp, handleRequest to handleGetQueueStatus. The stub of the scheduler is a
-- parameter: what a call comes to, and what it does to what stands behind it.
use my_taskflow_system.Common.{
  Bool, true, false, ◌&&◌, List, [], ◌∷◌, ◌++◌, Text, codes, is_empty, text_eq, if◌then◌else◌,
}
use my_taskflow_system.Common.Int.{ℤ, pos}
use my_taskflow_system.Common.Maps.{Map, put}
use my_taskflow_system.Common.Exec.{Exec, ok, ◌>>=◌, pure, lift}
use my_taskflow_system.Common.Decimal.{to_string}
use my_taskflow_system.Messages.{
  Task, SubmitTaskRequest, SubmitTaskReply, TaskReply, WorkerInfo, unset_request,
}
use my_taskflow_system.Gateway.Query.{extract_path, parse_query_param}
use my_taskflow_system.Gateway.Body.{read_type, read_priority, read_data, set_data}

-- The reply of a call, or the error_message() of its status.
pub data Called (A : Type 0) : Type 0 where
  answered : A → Called A
  refused : Text → Called A

-- SchedulerService::Stub, and the TaskStatus_Name that is made from the .proto file.
pub record Stub : Type 1 where
  pub State : Type 0
  pub submit_task : SubmitTaskRequest → State → Called SubmitTaskReply × State
  pub get_task_status : Text → State → Called TaskReply × State
  pub get_workers : State → Called (List WorkerInfo) × State
  pub task_status_name : ℤ → Text

pub record HttpRequest : Type 0 where
  pub method : Text
  pub path : Text
  pub body : Text
  pub headers : Map Text
  pub query_params : Map Text

pub record HttpResponse : Type 0 where
  pub status_code : ℤ
  pub body : Text
  pub headers : Map Text

abbrev pub set_response : ℤ → Text → HttpResponse → HttpResponse
set_response code text response = record response { status_code = code; body = text }

-- A value in quotation marks.
abbrev pub quoted : Text → Text
quoted s = codes "\"" ++ (s ++ codes "\"")

abbrev pub bool_text : Bool → Text
bool_text b = if b then codes "true" else codes "false"

abbrev pub error_body : Text → Text
error_body message = codes "{\"error\":\"" ++ (message ++ codes "\"}")

-- What handleSubmitTask sends, once the priority is read.
abbrev pub submit_request : Text → ℤ → SubmitTaskRequest
submit_request body priority =
    let typed = record unset_request { type = read_type body; priority = priority } in
    set_data body (set_data (read_data body typed.payload) typed)

abbrev pub submit_response : Called SubmitTaskReply → HttpResponse → Bool × HttpResponse
submit_response (answered reply) response = (
  true,
  set_response (if reply.success then pos 200 else pos 500)
      (codes "{\"success\":"
        ++ (bool_text reply.success
            ++ (codes ",\"task_id\":"
                ++ (quoted reply.task_id
                    ++ (codes ",\"message\":" ++ (quoted reply.message ++ codes "}"))))))
      response,
)
submit_response (refused message) response = (
  false,
  set_response (pos 503) (codes "{\"success\":false,\"error\":" ++ (quoted message ++ codes "}"))
      response,
)

-- The text of a task in the answer of handleGetStatus.
abbrev pub task_text : (ℤ → Text) → Task → Text
task_text name task =
    codes "\"id\":"
    ++ (quoted task.id
        ++ (codes ",\"status\":"
            ++ (quoted (name task.status)
                ++ (codes ",\"created_at\":"
                    ++ (to_string task.created_at
                        ++ (codes ",\"started_at\":"
                            ++ (to_string task.started_at
                                ++ (codes ",\"finished_at\":"
                                    ++ (to_string task.finished_at
                                        ++ (codes ",\"error_message\":"
                                            ++ (quoted task.error_message
                                                ++ (codes ",\"result\":"
                                                    ++ quoted task.result))))))))))))

abbrev pub status_response : (ℤ → Text) → Called TaskReply → HttpResponse → Bool × HttpResponse
status_response name (answered reply) response = (
  true,
  set_response (if reply.success then pos 200 else pos 404)
      (codes "{\"success\":"
        ++ (bool_text reply.success
            ++ (codes ",\"task\":{" ++ (task_text name reply.task ++ codes "}}"))))
      response,
)
status_response name (refused message) response =
    (false, set_response (pos 503) (error_body message) response)

abbrev pub worker_text : WorkerInfo → Text
worker_text w =
    codes "{\"id\":"
    ++ (quoted w.worker_id
        ++ (codes ",\"address\":"
            ++ (quoted w.address
                ++ (codes ",\"port\":"
                    ++ (to_string w.port
                        ++ (codes ",\"current_load\":"
                            ++ (to_string w.current_load
                                ++ (codes ",\"status\":" ++ (quoted w.status ++ codes "}")))))))))

-- The loop of handleGetWorkers; `first` says that i is 0.
abbrev pub workers_text : Bool → List WorkerInfo → Text
workers_text first [] = []
workers_text first (w ∷ ws) =
    (if first then [] else codes ",") ++ (worker_text w ++ workers_text false ws)

abbrev pub workers_response : Called (List WorkerInfo) → HttpResponse → Bool × HttpResponse
workers_response (answered workers) response = (
  true,
  set_response (pos 200) (codes "{\"workers\":[" ++ (workers_text true workers ++ codes "]}"))
      response,
)
workers_response (refused message) response =
    (false, set_response (pos 503) (error_body message) response)

unfoldable pub handle_get_stats : HttpResponse → Bool × HttpResponse
handle_get_stats response =
    (true, set_response (pos 200) (codes "{\"stats\":\"not implemented\"}") response)

unfoldable pub handle_health_check : HttpResponse → Bool × HttpResponse
handle_health_check response =
    (true, set_response (pos 200) (codes "{\"status\":\"ok\",\"service\":\"gateway\"}") response)

unfoldable pub handle_get_queue_status : HttpResponse → Bool × HttpResponse
handle_get_queue_status response =
    (true, set_response (pos 200) (codes "{\"queue\":\"not implemented\"}") response)

-- The response that handleRequest begins with.
abbrev pub not_found : Map Text → HttpResponse
not_found headers = record {
  status_code = pos 404;
  body = codes "Not Found";
  headers = put (codes "Content-Type") (codes "application/json") headers;
}

abbrev pub is_route : Text → Text → HttpRequest → Bool
is_route method path request =
    text_eq request.method method && text_eq (extract_path request.path) path

module _ (S : Stub) where
  open S use {State}

  -- A priority that no int holds throws.
  unfoldable pub handle_submit_task : HttpRequest → HttpResponse → Exec State (Bool × HttpResponse)
  unfolding read_priority
  handle_submit_task request response = do
    priority ← lift (read_priority request.body)
    λ s.
        let (called, s') = S.submit_task (submit_request request.body priority) s in
        (ok (submit_response called response), s')

  unfoldable pub handle_get_status :
      HttpRequest → HttpResponse → State → (Bool × HttpResponse) × State
  unfolding parse_query_param
  handle_get_status request response s =
      let task_id = parse_query_param request.path (codes "id") in
      let (called, s') = S.get_task_status task_id s in
      if is_empty task_id
      then ((false, set_response (pos 400) (codes "{\"error\":\"Missing task id\"}") response), s)
      else (status_response S.task_status_name called response, s')

  unfoldable pub handle_get_workers : HttpResponse → State → (Bool × HttpResponse) × State
  handle_get_workers response s =
      let (called, s') = S.get_workers s in (workers_response called response, s')

  -- A handler that does not throw.
  abbrev pub runs : (State → (Bool × HttpResponse) × State) → Exec State (Bool × HttpResponse)
  runs f s = let (a, s') = f s in (ok a, s')

  unfoldable pub route : HttpRequest → HttpResponse → Exec State (Bool × HttpResponse)
  unfolding handle_submit_task handle_get_status handle_get_workers handle_get_stats
      handle_health_check handle_get_queue_status
  route request response =
      if is_route (codes "GET") (codes "/health") request
      then pure (handle_health_check response)
      else if is_route (codes "POST") (codes "/task") request
      then handle_submit_task request response
      else if is_route (codes "GET") (codes "/task") request
      then runs (handle_get_status request response)
      else if is_route (codes "GET") (codes "/workers") request
      then runs (handle_get_workers response)
      else if is_route (codes "GET") (codes "/stats") request
      then pure (handle_get_stats response)
      else if is_route (codes "GET") (codes "/queue") request
      then pure (handle_get_queue_status response)
      else pure (false, response)

  -- handleRequest: the Bool of the handler is not used.
  unfoldable pub handle_request : HttpRequest → HttpResponse → Exec State HttpResponse
  unfolding route
  handle_request request response = do
    handled ← route request (not_found response.headers)
    pure handled.1
