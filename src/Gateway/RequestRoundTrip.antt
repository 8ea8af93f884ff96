-- ===== src/Gateway/RequestRoundTrip.antt =====
-- Requests written and read back by handleConnection of gateway.cpp.
use mathlib.Core.Option
use my_taskflow_system.Common.{
  Option, ℕ, zero, suc, ◌-◌, ◌<◌, ◌^◌, ◌≡◌, refl, sym, ap, ◌∙◌, true, false, some, none, List, [],
  ◌∷◌, ◌++◌, Text, codes, All, length, length-append, take_front, ltb, arith,
}
use mathlib.Core.List.{append-nil}
use my_taskflow_system.Common.Int.{ℤ}
use my_taskflow_system.Common.Exec.{throw, throw, Result, ok}
use my_taskflow_system.Common.Decimal.{stoi_field}
use my_taskflow_system.Common.Search.{contains, split_at, after_literal, search}
use my_taskflow_system.Dispatcher.Model.{to_size}
use my_taskflow_system.Gateway.Handler.{HttpRequest}
use my_taskflow_system.Gateway.Connection.{
  next_word, read_line, read_headers, content_length, read_body, request_of, parse_request,
}
use my_taskflow_system.Gateway.QueryRoundTrip.{IsWithout, split_at-append}
use my_taskflow_system.Gateway.RequestLines.{
  IsWord, IsHeader, length_line, lines_text, headers_of, request_line, header, head_text,
  request_line-IsWithout, next_word-IsWord, next_word-space, read_headers-lines_text, header-IsLine,
}

content_length-headers_of :
    (size : ℕ) (ss : List Text) (rest : List Text)
    → All IsHeader ss
    → content_length size (headers_of ss ++ rest) ≡ content_length size rest
unfolding content_length
content_length-headers_of size [] rest h = refl
content_length-headers_of size ([] ∷ ss) rest h = absurd h.0
content_length-headers_of size ((c ∷ s) ∷ ss) rest h =
    rw h.0.2 (content_length-headers_of size ss rest h.1)

content_length-length_line :
    (size n : ℕ) (rest : List Text)
    → n < 2 ^ 31
    → content_length size (length_line n ∷ rest) ≡ content_length n rest
unfolding content_length contains split_at search after_literal
content_length-length_line size n rest h =
    ap
      (λ (r : Result ℤ). elim r as (λ _. Result ℕ) [
        | ok k ↦ content_length (to_size k) rest
        | throw e ↦ throw e
      ])
      (stoi_field n h)

content_length-header :
    (front back : List Text) (n : ℕ)
    → All IsHeader front
    → All IsHeader back
    → n < 2 ^ 31
    → content_length 0 (header front back n) ≡ ok n
unfolding content_length
content_length-header front back n f b h =
    content_length-headers_of 0 front (length_line n ∷ headers_of back) f
    ∙ content_length-length_line 0 n (headers_of back) h
    ∙ ap (content_length n) (sym (append-nil (headers_of back)))
    ∙ content_length-headers_of n back [] b

empty_of : (t : Text) → 0 ≡ length t → [] ≡ t
empty_of [] e = refl
empty_of (c ∷ t) e = absurd (omega arith)

read_body-append :
    (now later more : Text)
    → read_body (length (now ++ later)) now (later ++ more) ≡ some (now ++ later)
unfolding read_body
read_body-append now later more = read (length (now ++ later)) refl
  where
    read :
        (n : ℕ) → n ≡ length (now ++ later) → read_body n now (later ++ more) ≡ some (now ++ later)
    read zero e = ap some (empty_of (now ++ later) e)
    read (suc n) e =
        let parts = length-append now later in
        let missing : suc n - length now ≡ length later = omega (arith, parts) in
        let enough : ltb (length (later ++ more)) (length later) ≡ false =
          ground (arith, length-append later more) in
        let all : length (now ++ later) - suc n ≡ 0 = omega arith in
        rw (missing, enough, take_front later more, all) refl

-- parse_request, one step after the other.
abbrev with_lines : Text → Text → Text → List Text × Text → Option HttpRequest
with_lines later method path r = elim (content_length 0 r.0) [
  | throw e ↦ none
  | ok size ↦ Option.map (request_of method path) (read_body size r.1 later)
]

abbrev with_path : Text → Text → Text → Text × Text → Option HttpRequest
with_path later rest method r = with_lines later method r.0 (read_headers true rest)

abbrev with_method : Text → Text → Text × Text → Option HttpRequest
with_method later rest r = with_path later rest r.0 (next_word r.1)

abbrev with_line : Text → Text × Text → Option HttpRequest
with_line later r = with_method later r.1 (next_word r.0)

with_lines-header :
    (later method path now body : Text) (lines : List Text) (size : ℕ)
    → content_length 0 lines ≡ ok size
    → read_body size now later ≡ some body
    → with_lines later method path (lines, now) ≡ some (request_of method path body)
with_lines-header later method path now body lines size c r = rw (with_lines, c, r) refl

read_line-append : (s t : Text) → IsWithout b'\n' s → read_line (s ++ b'\n' ∷ t) ≡ (s, t)
unfolding read_line
read_line-append s t h = rw (read_line, split_at-append b'\n' s t h) refl

-- A request that is written out is read back: its method, its path and its body, however the body
-- is split between what is in the buffer and what the socket gives later, whatever other headers
-- there are and whatever the socket gives after the request. The method and the path are words, no
-- other header is empty, begins with a carriage return, has a newline or names the length, and the
-- body is shorter than 2 ^ 31 bytes.
pub parse_request-head_text :
    (method path : Text) (front back : List Text) (now later more : Text)
    → IsWord method
    → IsWord path
    → All IsHeader front
    → All IsHeader back
    → length (now ++ later) < 2 ^ 31
    → parse_request (head_text method path front back (length (now ++ later)) now) (later ++ more)
      ≡ some (request_of method path (now ++ later))
unfolding parse_request read_line next_word read_headers content_length read_body
parse_request-head_text method path front back now later more m p f b h =
    let n = length (now ++ later) in
    let all = later ++ more in
    let line = request_line method path in
    let rest = lines_text (header front back n) (codes "\r\n" ++ now) in
    let version = b' ' ∷ codes "HTTP/1.1\r" in
    ap (with_line all) (read_line-append line rest (request_line-IsWithout method path m p))
    ∙ ap (with_method all rest) (next_word-IsWord method (path ++ version) m)
    ∙ ap (with_path all rest method) (next_word-space path (codes "HTTP/1.1\r") p)
    ∙ ap (with_lines all method path)
        (read_headers-lines_text (header front back n) now (header-IsLine front back n f b))
    ∙ with_lines-header all method path now (now ++ later) (header front back n) n
        (content_length-header front back n f b h) (read_body-append now later more)
