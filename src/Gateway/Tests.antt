-- ===== src/Gateway/Tests.antt =====
-- The gateway at concrete inputs.
use my_taskflow_system.Common.{List, ◌≡◌, refl, [], ◌∷◌, ◌++◌, Text, codes, text_eq, arith, some}
use my_taskflow_system.Common.Int.{pos}
use my_taskflow_system.Common.Maps.{find, Map}
use my_taskflow_system.Common.Exec.{ok}
use my_taskflow_system.Common.Maps.{find}
use my_taskflow_system.Common.Decimal.{to_string}
use my_taskflow_system.Gateway.Query.{extract_path, parse_query_param}
use my_taskflow_system.Gateway.Handler.{
  submit_response, handle_submit_task, Stub, refused, handle_request,
}
use my_taskflow_system.Gateway.Connection.{
  request_of, parse_request, unset_response, read_headers, content_length,
}
use my_taskflow_system.Common.{All}
use my_taskflow_system.Common.Search.{contains, search, after_literal}
use my_taskflow_system.Gateway.RequestLines.{IsHeader, head_text}
use my_taskflow_system.Gateway.RequestRoundTrip.{parse_request-head_text}
use my_taskflow_system.Gateway.QueryRoundTrip.{render, parse_query_param-render}
use my_taskflow_system.Gateway.Fields.{Field, string, number, object_text}
use my_taskflow_system.Gateway.Delivery.{asked_for, handle_submit_task-asked_for}
use my_taskflow_system.Gateway.Responses.{IsAnswer, handle_request-IsAnswer}

abbrev entries : Map Text
entries = (codes "id", codes "7") ∷ (codes "x", codes "a=b") ∷ []

parse_query_param-render_example :
    (extract_path (codes "/task" ++ b'?' ∷ render entries) ≡ codes "/task")
    × (parse_query_param (codes "/task" ++ b'?' ∷ render entries) (codes "id") ≡ codes "7")
unfolding text_eq
parse_query_param-render_example =
    parse_query_param-render (codes "/task") (codes "id") entries (ground arith) (ground arith)

-- A scheduler that is down.
abbrev down : Stub
down = record {
  State = Unit {0};
  submit_task = λ request s. (refused (codes "down"), s);
  get_task_status = λ id s. (refused (codes "down"), s);
  get_workers = λ s. (refused (codes "down"), s);
  task_status_name = λ n. codes "PENDING";
}

handle_request-IsAnswer_example :
    IsAnswer down (request_of (codes "GET") (codes "/task?id=7") []) [] tt (
      handle_request down
        (request_of (codes "GET") (codes "/task?id=7") [])
        (unset_response (pos 0))
        tt)
handle_request-IsAnswer_example =
    handle_request-IsAnswer down (request_of (codes "GET") (codes "/task?id=7") [])
      (unset_response (pos 0)) tt

-- A request line, a header with a length, and a body of which two bytes come later.
parsed :
    parse_request (codes "POST /task HTTP/1.1\r\nContent-Length: 4\r\n\r\n{}") (codes "ab")
    ≡ some (request_of (codes "POST") (codes "/task") (codes "{}ab"))
unfolding parse_request read_headers content_length
parsed = refl

-- {"data": "x", "priority": 2, "type": "message"}
abbrev fields : List Field
fields =
    string (codes "data") (codes "x")
    ∷ number (codes "priority") 2
    ∷ string (codes "type") (codes "message")
    ∷ []

handle_submit_task-asked_for_example :
    handle_submit_task down
      (request_of (codes "POST") (codes "/task") (object_text (codes " ") fields))
      (unset_response (pos 0))
      tt
    ≡ (ok (submit_response (refused (codes "down")) (unset_response (pos 0))), tt)
handle_submit_task-asked_for_example =
    handle_submit_task-asked_for down (codes " ") fields
      (request_of (codes "POST") (codes "/task") (object_text (codes " ") fields))
      (unset_response (pos 0)) tt (refl, tt) (ground arith) refl

asked : asked_for (codes " ") fields ≡ record {
  type = pos 2;
  priority = pos 2;
  payload = codes "{\"data\": \"x\", \"priority\": 2, \"type\": \"message\"}";
}
unfolding find text_eq to_string
asked = refl

host_line : All IsHeader (codes "Host: localhost" ∷ [])
unfolding contains search after_literal
host_line = ground arith

parse_request-head_text_example :
    parse_request
      (head_text
        (codes "POST")
        (codes "/submit")
        (codes "Host: localhost" ∷ [])
        []
        7
        (codes "{\"a"))
      (codes "\":1}\r\n")
    ≡ some (request_of (codes "POST") (codes "/submit") (codes "{\"a\":1}"))
parse_request-head_text_example =
    parse_request-head_text (codes "POST") (codes "/submit") (codes "Host: localhost" ∷ []) []
      (codes "{\"a") (codes "\":1}") (codes "\r\n") (ground arith) (ground arith) host_line tt
      (omega arith)
