-- ===== src/Gateway/Reasons.antt =====
-- Why the gateway answers a request with a status: the routes of handleRequest of
-- gateway/http_handler.cpp, and what the scheduler replies.
use my_taskflow_system.Common.{
  ◌++◌, ◌≡◌, true, false, List, Text, codes, text_eq, text_eq_iff, is_empty, Bool-cases, inl, inr,
}
use my_taskflow_system.Common.Int.{ℤ, pos}
use my_taskflow_system.Common.Maps.{Map, put}
use my_taskflow_system.Common.Exec.{ok}
use my_taskflow_system.Messages.{SubmitTaskReply, TaskReply, WorkerInfo}
use my_taskflow_system.Gateway.Body.{read_priority}
use my_taskflow_system.Gateway.Query.{extract_path, parse_query_param}
use my_taskflow_system.Gateway.Handler.{
  quoted, task_text, workers_text, Stub, answered, refused, HttpRequest, HttpResponse,
  submit_request, is_route,
}

-- A request with the method for the path.
abbrev pub Asks : Text → Text → HttpRequest → Type 0
Asks method path request = (request.method ≡ method) × (extract_path request.path ≡ path)

-- A response with JSON as the type of its content.
abbrev pub json : ℤ → Text → Map Text → HttpResponse
json code body headers = record {
  status_code = code;
  body = body;
  headers = put (codes "Content-Type") (codes "application/json") headers;
}

pub is_route-Asks :
    (method path : Text) (request : HttpRequest)
    → is_route method path request ≡ true
    → Asks method path request
is_route-Asks method path request e = elim (Bool-cases (text_eq request.method method)) [
  | inl same ↦ (
    (text_eq_iff request.method method).0 same,
    (text_eq_iff (extract_path request.path) path).0 (rw same at e),
  )
  | inr other ↦ absurd (cc (rw other at e))
]

pub is_route-other :
    (method path : Text) (request : HttpRequest)
    → is_route method path request ≡ false
    → Asks method path request
    → ⊥
is_route-other method path request e (m, p) =
    let same = (text_eq_iff request.method method).1 m in
    let there = (text_eq_iff (extract_path request.path) path).1 p in cc (rw (same, there) at e)

module _ (S : Stub) where
  open S use {State}

  -- Why a request gets its status and its body, and what the calls of the scheduler leave.
  pub data Reason (request : HttpRequest) (s : State) : ℤ → Text → State → Type 0 where
    healthy :
        Asks (codes "GET") (codes "/health") request
        → Reason request s (pos 200) (codes "{\"status\":\"ok\",\"service\":\"gateway\"}") s
    taken :
        (priority : ℤ) (reply : SubmitTaskReply) (after : State)
        → Asks (codes "POST") (codes "/task") request
        → read_priority request.body ≡ ok priority
        → S.submit_task (submit_request request.body priority) s ≡ (answered reply, after)
        → reply.success ≡ true
        → Reason request s
            (pos 200)
            (codes "{\"success\":true,\"task_id\":"
              ++ (quoted reply.task_id
                  ++ (codes ",\"message\":" ++ (quoted reply.message ++ codes "}"))))
            after
    not_taken :
        (priority : ℤ) (reply : SubmitTaskReply) (after : State)
        → Asks (codes "POST") (codes "/task") request
        → read_priority request.body ≡ ok priority
        → S.submit_task (submit_request request.body priority) s ≡ (answered reply, after)
        → reply.success ≡ false
        → Reason request s
            (pos 500)
            (codes "{\"success\":false,\"task_id\":"
              ++ (quoted reply.task_id
                  ++ (codes ",\"message\":" ++ (quoted reply.message ++ codes "}"))))
            after
    submit_down :
        (priority : ℤ) (message : Text) (after : State)
        → Asks (codes "POST") (codes "/task") request
        → read_priority request.body ≡ ok priority
        → S.submit_task (submit_request request.body priority) s ≡ (refused message, after)
        → Reason request s
            (pos 503)
            (codes "{\"success\":false,\"error\":" ++ (quoted message ++ codes "}"))
            after
    no_id :
        Asks (codes "GET") (codes "/task") request
        → is_empty (parse_query_param request.path (codes "id")) ≡ true
        → Reason request s (pos 400) (codes "{\"error\":\"Missing task id\"}") s
    known :
        (reply : TaskReply) (after : State)
        → Asks (codes "GET") (codes "/task") request
        → is_empty (parse_query_param request.path (codes "id")) ≡ false
        → S.get_task_status (parse_query_param request.path (codes "id")) s
          ≡ (answered reply, after)
        → reply.success ≡ true
        → Reason request s
            (pos 200)
            (codes "{\"success\":true,\"task\":{"
              ++ (task_text S.task_status_name reply.task ++ codes "}}"))
            after
    unknown :
        (reply : TaskReply) (after : State)
        → Asks (codes "GET") (codes "/task") request
        → is_empty (parse_query_param request.path (codes "id")) ≡ false
        → S.get_task_status (parse_query_param request.path (codes "id")) s
          ≡ (answered reply, after)
        → reply.success ≡ false
        → Reason request s
            (pos 404)
            (codes "{\"success\":false,\"task\":{"
              ++ (task_text S.task_status_name reply.task ++ codes "}}"))
            after
    status_down :
        (message : Text) (after : State)
        → Asks (codes "GET") (codes "/task") request
        → is_empty (parse_query_param request.path (codes "id")) ≡ false
        → S.get_task_status (parse_query_param request.path (codes "id")) s
          ≡ (refused message, after)
        → Reason request s (pos 503) (codes "{\"error\":\"" ++ (message ++ codes "\"}")) after
    listed :
        (workers : List WorkerInfo) (after : State)
        → Asks (codes "GET") (codes "/workers") request
        → S.get_workers s ≡ (answered workers, after)
        → Reason request s
            (pos 200)
            (codes "{\"workers\":[" ++ (workers_text true workers ++ codes "]}"))
            after
    workers_down :
        (message : Text) (after : State)
        → Asks (codes "GET") (codes "/workers") request
        → S.get_workers s ≡ (refused message, after)
        → Reason request s (pos 503) (codes "{\"error\":\"" ++ (message ++ codes "\"}")) after
    stats :
        Asks (codes "GET") (codes "/stats") request
        → Reason request s (pos 200) (codes "{\"stats\":\"not implemented\"}") s
    queue :
        Asks (codes "GET") (codes "/queue") request
        → Reason request s (pos 200) (codes "{\"queue\":\"not implemented\"}") s
    no_route :
        (Asks (codes "GET") (codes "/health") request → ⊥)
        → (Asks (codes "POST") (codes "/task") request → ⊥)
        → (Asks (codes "GET") (codes "/task") request → ⊥)
        → (Asks (codes "GET") (codes "/workers") request → ⊥)
        → (Asks (codes "GET") (codes "/stats") request → ⊥)
        → (Asks (codes "GET") (codes "/queue") request → ⊥)
        → Reason request s (pos 404) (codes "Not Found") s
