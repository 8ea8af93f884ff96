-- ===== src/Gateway/Connection.antt =====
-- gateway.cpp, handleConnection: one request read from a socket, and the text of its response.
use my_taskflow_system.Common.{
  drop, take, suc, ℕ, zero, ◌-◌, Bool, true, ◌&&◌, Option, none, some, List, [], ◌∷◌, ◌++◌, Text,
  codes, ltb, ◌==◌, length, drop, take, if◌then◌else◌,
}
use mathlib.Core.Option
use my_taskflow_system.Common.Int.{ℤ, pos}
use my_taskflow_system.Common.Maps.{find}
use my_taskflow_system.Common.Exec.{Result, ok, throw}
use my_taskflow_system.Common.Decimal.{skip_spaces, to_string, stoi, is_space}
use my_taskflow_system.Common.Search.{contains, split_at, put_first}
use my_taskflow_system.Dispatcher.Model.{to_size}
use my_taskflow_system.Gateway.Handler.{Stub, HttpRequest, HttpResponse, handle_request}

-- The word at the front, and what follows it.
unfoldable pub split_word : Text → Text × Text
split_word [] = ([], [])
split_word (c ∷ s) =
    let rest = split_word s in if is_space c then ([], c ∷ s) else (c ∷ rest.0, rest.1)

-- stream >> word
unfoldable pub next_word : Text → Text × Text
unfolding split_word skip_spaces
next_word s = split_word (skip_spaces s)

abbrev pub ends_line : Text → Bool
ends_line [] = true
ends_line (c ∷ s) = c == 10

abbrev pub after_newline : Text → Text
after_newline [] = []
after_newline (c ∷ s) = s

-- std::getline(stream, request_line)
unfoldable pub read_line : Text → Text × Text
unfolding split_at
read_line s = elim (split_at 10 s) [ some (line, rest) ↦ (line, rest) | none ↦ (s, []) ]

-- The lines that the loop over the header visits, and what is left in the buffer after it: the loop
-- ends with a line that is "\r", or with the buffer. `starts`: a line starts here.
unfoldable pub read_headers : Bool → Text → List Text × Text
read_headers starts [] = ([], [])
read_headers starts (c ∷ s) =
    let next = read_headers (c == 10) s in
    if (starts && c == 13) && ends_line s
    then ([], after_newline s)
    else if c == 10
    then ([] ∷ next.0, next.1)
    else (put_first c next.0, next.1)

-- std::stoi(line.substr(colon + 1))
abbrev pub length_in : Text → Result ℤ
length_in line = elim (split_at b':' line) [ some (name, rest) ↦ stoi rest | none ↦ ok (pos 0) ]

-- body_size, after the loop; the last line counts.
unfoldable pub content_length : ℕ → List Text → Result ℕ
unfolding contains split_at stoi
content_length size [] = ok size
content_length size (line ∷ lines) =
    let named : Result ℕ = elim (length_in line) [
      | ok n ↦ content_length (to_size n) lines
      | throw e ↦ throw e
    ] in
    if contains (codes "Content-Length:") line then named else content_length size lines

-- The body of a request: the last bytes of the buffer, after what is missing is read. none: the
-- socket ends before it, and read throws.
unfoldable pub read_body : ℕ → Text → Text → Option Text
read_body zero buffer later = some []
read_body (suc n) buffer later =
    let missing = suc n - length buffer in
    let filled = buffer ++ take missing later in
    if ltb (length later) missing then none else some (drop (length filled - suc n) filled)

unfoldable pub response_text : HttpResponse → Text
unfolding find
response_text response =
    let content_type : Text = elim (find (codes "Content-Type") response.headers) [
      | some t ↦ t
      | none ↦ []
    ] in
    codes "HTTP/1.1 "
    ++ (to_string response.status_code
        ++ (codes " OK\r\nContent-Type: "
            ++ (content_type
                ++ (codes "\r\nContent-Length: "
                    ++ (to_string (pos (length response.body))
                        ++ (codes "\r\nConnection: close\r\n\r\n" ++ response.body))))))

abbrev pub request_of : Text → Text → Text → HttpRequest
request_of method path body = record {
  method = method;
  path = path;
  body = body;
  headers = [];
  query_params = [];
}

-- The request that stands in the buffer; `later` is what the socket gives after it.
unfoldable pub parse_request : Text → Text → Option HttpRequest
unfolding read_line next_word read_headers content_length read_body
parse_request received later =
    let (request_line, rest) = read_line received in
    let (method, after_method) = next_word request_line in
    let (path, after_path) = next_word after_method in
    let (lines, buffer) = read_headers true rest in
    elim (content_length 0 lines) [
      | throw e ↦ none
      | ok size ↦ Option.map (request_of method path) (read_body size buffer later)
    ]

-- `HttpResponse response;`: its status is not set.
abbrev pub unset_response : ℤ → HttpResponse
unset_response code = record { status_code = code; body = []; headers = [] }

module _ (S : Stub) where
  -- The text that is written to the socket; an exception ends the connection without one.
  unfoldable pub answer : ℤ → HttpRequest → S.State → Option Text × S.State
  unfolding handle_request response_text
  answer code request s =
      let (handled, s') = handle_request S request (unset_response code) s in
      (elim handled [ ok response ↦ some (response_text response) | throw e ↦ none ], s')

  -- `received` is what read_until leaves in the buffer.
  unfoldable pub handle_connection : ℤ → Text → Text → S.State → Option Text × S.State
  unfolding parse_request answer
  handle_connection code received later s = elim (parse_request received later) [
    | none ↦ (none, s)
    | some request ↦ answer code request s
  ]
