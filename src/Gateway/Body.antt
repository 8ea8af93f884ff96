-- ===== src/Gateway/Body.antt =====
-- gateway/http_handler.cpp, handleSubmitTask: the three expressions that read the body of a request.
use my_taskflow_system.Common.{
  Option, none, some, [], ◌∷◌, ◌++◌, Text, codes, text_eq, if◌then◌else◌,
}
use my_taskflow_system.Common.Int.{ℤ, pos}
use my_taskflow_system.Common.Exec.{Result, ok}
use my_taskflow_system.Common.Decimal.{stoi, skip_spaces}
use my_taskflow_system.Common.Search.{
  after_literal, up_to_quote, split_digits, some_digits, and_then, search,
}
use my_taskflow_system.Messages.{SubmitTaskRequest}

-- "name"\s*:\s* at the front: what follows it.
unfoldable pub after_field : Text → Text → Option Text
unfolding after_literal skip_spaces
after_field name s =
    and_then (after_literal (b'"' ∷ (name ++ b'"' ∷ [])) s)
      (λ t. and_then (after_literal (codes ":") (skip_spaces t)) (λ u. some (skip_spaces u)))

-- A group of at least one character.
abbrev pub some_text : Text × Text → Option (Text × Text)
some_text ([], rest) = none
some_text (c ∷ s, rest) = some (c ∷ s, rest)

-- "name"\s*:\s*"([^"]+)"
unfoldable pub match_string_field : Text → Text → Option (Text × Text)
unfolding after_field after_literal up_to_quote
match_string_field name s =
    and_then (after_field name s)
      (λ t. and_then (after_literal (codes "\"") t) (λ u. and_then (up_to_quote u) some_text))

-- "name"\s*:\s*(\d+)
unfoldable pub match_number_field : Text → Text → Option (Text × Text)
unfolding after_field split_digits
match_number_field name s = and_then (after_field name s) (λ t. some_digits (split_digits t))

-- The number of the type that a name stands for; a name that none is known for leaves the field.
abbrev pub type_named : Text → ℤ → ℤ
type_named name unset =
    if text_eq name (codes "order")
    then pos 0
    else if text_eq name (codes "personnel")
    then pos 1
    else if text_eq name (codes "message")
    then pos 2
    else if text_eq name (codes "stats")
    then pos 3
    else unset

unfoldable pub read_type : Text → ℤ
unfolding search match_string_field
read_type body = elim (search (match_string_field (codes "type")) body) [
  | some (name, rest) ↦ type_named name (pos 0)
  | none ↦ pos 0
]

unfoldable pub read_priority : Text → Result ℤ
unfolding search match_number_field stoi
read_priority body = elim (search (match_number_field (codes "priority")) body) [
  | some (number, rest) ↦ stoi number
  | none ↦ ok (pos 1)
]

-- set_data of the match of data_regex, and then of the body.
unfoldable pub read_data : Text → Text → Text
unfolding search match_string_field
read_data body unset = elim (search (match_string_field (codes "data")) body) [
  | some (found, rest) ↦ found
  | none ↦ unset
]

abbrev pub set_data : Text → SubmitTaskRequest → SubmitTaskRequest
set_data payload r = record r { payload = payload }
