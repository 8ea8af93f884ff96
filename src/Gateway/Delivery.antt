-- ===== src/Gateway/Delivery.antt =====
-- gateway/http_handler.cpp, handleSubmitTask: a body that is a JSON object, and the request that the
-- scheduler gets for it.
use mathlib.Core.Option
use my_taskflow_system.Common.{
  ℕ, ◌<◌, ◌^◌, ◌≡◌, refl, ap, ◌∙◌, Option, none, some, List, [], ◌∷◌, Text, codes, text_eq, All,
  Bool-cases, inl, inr, arith, true,
}
use my_taskflow_system.Common.Int.{ℤ, pos}
use my_taskflow_system.Common.Maps.{Map, find}
use my_taskflow_system.Common.Exec.{Result, ok}
use my_taskflow_system.Common.Decimal.{to_string, stoi, stoi-to_string, is_space}
use my_taskflow_system.Common.Search.{after_literal}
use my_taskflow_system.Messages.{SubmitTaskRequest}
use my_taskflow_system.Gateway.Body.{read_type, read_priority, type_named}
use my_taskflow_system.Gateway.Fields.{
  Field, string, number, string_named, number_named, IsField, IsName, object_text,
}
use my_taskflow_system.Gateway.Lookups.{group, search-string_named, search-number_named}
use my_taskflow_system.Gateway.Handler.{
  Stub, HttpRequest, HttpResponse, submit_response, handle_submit_task,
}

-- The names of the types with their numbers.
abbrev pub kinds : Map ℤ
kinds =
    (codes "order", pos 0)
    ∷ (codes "personnel", pos 1)
    ∷ (codes "message", pos 2)
    ∷ (codes "stats", pos 3)
    ∷ []

-- A number, or 0 if there is none.
abbrev pub or_zero : Option ℤ → ℤ
or_zero none = pos 0
or_zero (some z) = z

-- The number of the type that a field names, 0 for an unknown name or no field.
abbrev pub kind_number : Option Text → ℤ
kind_number none = pos 0
kind_number (some name) = or_zero (find name kinds)

-- The priority that a field gives, 1 if there is none.
abbrev pub priority_number : Option ℕ → ℤ
priority_number none = pos 1
priority_number (some k) = pos k

text_eq_sym : (a b : Text) → text_eq a b ≡ text_eq b a
unfolding text_eq
text_eq_sym [] [] = refl
text_eq_sym [] (c ∷ b) = refl
text_eq_sym (c ∷ a) [] = refl
text_eq_sym (c ∷ a) (d ∷ b) = ground (arith, text_eq_sym a b)

type_named-kind_number : (name : Text) → type_named name (pos 0) ≡ kind_number (some name)
unfolding find
type_named-kind_number name = ground (
  arith,
  text_eq_sym (codes "order") name,
  text_eq_sym (codes "personnel") name,
  text_eq_sym (codes "message") name,
  text_eq_sym (codes "stats") name,
)

type-IsName : IsName (codes "type")
unfolding after_literal
type-IsName = (ground arith, (λ t. refl), (λ t. refl), λ t. refl)

priority-IsName : IsName (codes "priority")
unfolding after_literal
priority-IsName = (ground arith, (λ t. refl), (λ t. refl), λ t. refl)

type_of_group :
    (found : Option (Text × Text)) (x : Option Text)
    → group found ≡ x
    → (elim found as (λ _. ℤ) [ some (name, rest) ↦ type_named name (pos 0) | none ↦ pos 0 ])
      ≡ kind_number x
type_of_group none x e = ap kind_number e
type_of_group (some (name, rest)) x e = type_named-kind_number name ∙ ap kind_number e

priority_of_group :
    (found : Option (Text × Text)) (x : Option ℕ)
    → ((k : ℕ) → x ≡ some k → k < 2 ^ 31)
    → group found ≡ Option.map (λ (k : ℕ). to_string (pos k)) x
    → (elim found as (λ _. Result ℤ) [ some (digits, rest) ↦ stoi digits | none ↦ ok (pos 1) ])
      ≡ ok (priority_number x)
priority_of_group none none small e = refl
priority_of_group none (some k) small e = absurd (cc)
priority_of_group (some (digits, rest)) none small e = absurd (cc)
priority_of_group (some (digits, rest)) (some k) small e =
    let same : digits ≡ to_string (pos k) = cc in
    let lt = small k refl in rw same (stoi-to_string (pos k) (omega arith))

number_named-small :
    (name : Text) (fs : List Field)
    → All IsField fs
    → (k : ℕ) → number_named name fs ≡ some k
    → k < 2 ^ 31
number_named-small name [] h k e = absurd (cc)
number_named-small name (string n v ∷ fs) h k e = number_named-small name fs h.1 k e
number_named-small name (number n j ∷ fs) h k e = elim (Bool-cases (text_eq name n)) [
  | inl same ↦ let equal : j ≡ k = cc (rw same at e) in omega (arith, h.0.1, equal)
  | inr other ↦ number_named-small name fs h.1 k (rw other at e)
]

-- What the scheduler is asked for.
abbrev pub asked_for : Text → List Field → SubmitTaskRequest
asked_for gap fs = record {
  type = kind_number (string_named (codes "type") fs);
  priority = priority_number (number_named (codes "priority") fs);
  payload = object_text gap fs;
}

module _ (S : Stub) where
  open S use {State}

  -- For a body that is a JSON object of texts and natural numbers, with any fields in any order and
  -- with any spaces after its colons and commas, the same after each, handleSubmitTask makes one
  -- call of the scheduler: with the number of the first type that the body names, or 0 if it names
  -- none or one that is not known; with the first number that it gives as the priority, or 1; and
  -- with the whole body as the data of the task, even if it has a field with the name data. The
  -- response is the one for what the call comes to. No name and no text has a quotation mark, and an
  -- int holds the numbers.
  pub handle_submit_task-asked_for :
      (gap : Text) (fs : List Field) (request : HttpRequest) (response : HttpResponse) (s : State)
      → All (λ c. is_space c ≡ true) gap
      → All IsField fs
      → request.body ≡ object_text gap fs
      → handle_submit_task S request response s ≡ (
        ok (submit_response (S.submit_task (asked_for gap fs) s).0 response),
        (S.submit_task (asked_for gap fs) s).1,
      )
  unfolding handle_submit_task read_type read_priority
  handle_submit_task-asked_for gap fs request response s spaces h e =
      let kind : read_type (object_text gap fs) ≡ kind_number (string_named (codes "type") fs) =
        type_of_group _ (string_named (codes "type") fs)
          (search-string_named gap spaces (codes "type") type-IsName fs h) in
      let priority : read_priority (object_text gap fs)
          ≡ ok (priority_number (number_named (codes "priority") fs)) =
        priority_of_group _ (number_named (codes "priority") fs)
          (number_named-small (codes "priority") fs h)
          (search-number_named gap spaces (codes "priority") priority-IsName fs h) in
      rw (e, priority, kind) refl
