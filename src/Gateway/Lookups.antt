-- ===== src/Gateway/Lookups.antt =====
-- What the regular expressions of handleSubmitTask find in the text of a JSON object: the first
-- field with the name and with a value of the kind that they look for.
use mathlib.Core.Option
use my_taskflow_system.Common.{
  ℕ, ◌≡◌, refl, ap, ◌∙◌, true, false, Option, none, some, List, [], ◌∷◌, ◌++◌, Text, codes, text_eq,
  All, Bool-cases, inl, inr, arith, if◌then◌else◌,
}
use my_taskflow_system.Common.Int.{pos}
use my_taskflow_system.Common.Decimal.{
  to_string, is_space, to_string-IsDigits, to_string-StartsWithDigit, is_digit, IsDigits,
  StartsWithDigit,
}
use my_taskflow_system.Common.Search.{
  search, split_digits, some_digits, after_literal, up_to_quote, and_then,
}
use my_taskflow_system.Gateway.Body.{match_number_field, match_string_field, after_field, some_text}
use my_taskflow_system.Gateway.Fields.{
  Field, string, number, string_named, number_named, NoQuote, IsField, IsName, name_of, value_text,
  field_text, rest_text, object_text, matching, search_next, search_here, no_match, search-NoQuote,
  rest_text-Ends, gap-NoQuote, field-matching, field-search,
}

-- The first group of what an expression finds.
abbrev pub group : Option (Text × Text) → Option Text
group o = Option.map (λ (r : Text × Text). r.0) o

abbrev string_value : Text → Option (Text × Text)
string_value t = and_then (after_literal (codes "\"") t) (λ u. and_then (up_to_quote u) some_text)

abbrev number_value : Text → Option (Text × Text)
number_value t = some_digits (split_digits t)

up_to_quote-NoQuote : (s t : Text) → NoQuote s → up_to_quote (s ++ b'"' ∷ t) ≡ some (s, t)
unfolding up_to_quote
up_to_quote-NoQuote [] t h = refl
up_to_quote-NoQuote (c ∷ s) t h = rw (h.0, up_to_quote-NoQuote s t h.1)

split_digits-append :
    (d rest : Text) (c : ℕ)
    → IsDigits d
    → is_digit c ≡ false
    → split_digits (d ++ c ∷ rest) ≡ (d, c ∷ rest)
unfolding split_digits
split_digits-append [] rest c h e = rw e refl
split_digits-append (x ∷ d) rest c h e = rw (h.0, split_digits-append d rest c h.1 e) refl

some_digits-start :
    (d rest : Text) → StartsWithDigit (d ++ []) → some_digits (d, rest) ≡ some (d, rest)
some_digits-start [] rest (c, r, e, lo, hi) = absurd (cc)
some_digits-start (x ∷ d) rest start = refl

string_value-number : (t : Text) → StartsWithDigit t → string_value t ≡ none
unfolding after_literal
string_value-number t (c, r, e, lo, hi) = rw e (ground arith)

string_value-string :
    (v rest : Text) → NoQuote v → string_value (b'"' ∷ (v ++ b'"' ∷ rest)) ≡ some_text (v, rest)
unfolding after_literal
string_value-string v rest h = rw (after_literal, up_to_quote-NoQuote v rest h) refl

-- The digits of a number, as the expression finds them.
abbrev pub digits_named : Text → List Field → Option Text
digits_named n fs = Option.map (λ (k : ℕ). to_string (pos k)) (number_named n fs)

module _ (gap : Text) (spaces : All (λ c. is_space c ≡ true) gap) (name : Text)
    (is_name : IsName name) where
  -- The field that matches, and one that does not.
  found :
      (g : Text → Option (Text × Text)) (f : Field) (rest : Text) (x : Text × Text)
      → IsField f
      → text_eq name (name_of f) ≡ true
      → g (value_text f rest) ≡ some x
      → group (search (matching name g) (field_text gap f rest)) ≡ some x.0
  found g f rest x h same e = ap group (
      search_here (matching name g) b'"' _ x
        (field-matching gap spaces name is_name g f rest h ∙ rw (same, e) refl))

  passed :
      (g : Text → Option (Text × Text)) (f : Field) (fs : List Field)
      → IsField f
      → (if text_eq name (name_of f) then g (value_text f (rest_text gap fs)) else none) ≡ none
      → group (search (matching name g) (field_text gap f (rest_text gap fs)))
        ≡ group (search (matching name g) (rest_text gap fs))
  passed g f fs h e = ap group (
      field-search gap spaces name is_name g f (rest_text gap fs) h (rest_text-Ends gap spaces fs)
        (field-matching gap spaces name is_name g f (rest_text gap fs) h ∙ e))

  string-field :
      (f : Field) (fs : List Field)
      → IsField f
      → group (search (matching name string_value) (rest_text gap fs)) ≡ string_named name fs
      → group (search (matching name string_value) (field_text gap f (rest_text gap fs)))
        ≡ string_named name (f ∷ fs)
  string-field (number n k) fs h ih =
      let start = string_value-number _ (to_string-StartsWithDigit k (rest_text gap fs)) in
      passed string_value (number n k) fs h (rw start (ground arith)) ∙ ih
  string-field (string n []) fs h ih =
      passed string_value (string n []) fs h
        (rw (string_value-string [] (rest_text gap fs) tt) (ground arith))
      ∙ ih
      ∙ ground arith
  string-field (string n (c ∷ v)) fs h ih = elim (Bool-cases (text_eq name n)) [
    | inl same ↦
        found string_value (string n (c ∷ v)) (rest_text gap fs) (c ∷ v, rest_text gap fs) h same
          (string_value-string (c ∷ v) (rest_text gap fs) h.1)
        ∙ rw same refl
    | inr other ↦ passed string_value (string n (c ∷ v)) fs h (rw other refl) ∙ ih ∙ rw other refl
  ]

  number_value-string : (v rest : Text) → number_value (b'"' ∷ (v ++ b'"' ∷ rest)) ≡ none
  unfolding split_digits
  number_value-string v rest = refl

  number_value-number :
      (k : ℕ) (fs : List Field)
      → number_value (to_string (pos k) ++ rest_text gap fs)
        ≡ some (to_string (pos k), rest_text gap fs)
  number_value-number k fs =
      let (c, t, e, digit, sp, colon, apart) = rest_text-Ends gap spaces fs in
      let split = split_digits-append (to_string (pos k)) t c (to_string-IsDigits k) digit in
      rw (e, split) (some_digits-start (to_string (pos k)) (c ∷ t) (to_string-StartsWithDigit k []))

  number-field :
      (f : Field) (fs : List Field)
      → IsField f
      → group (search (matching name number_value) (rest_text gap fs)) ≡ digits_named name fs
      → group (search (matching name number_value) (field_text gap f (rest_text gap fs)))
        ≡ digits_named name (f ∷ fs)
  number-field (string n v) fs h ih =
      passed number_value (string n v) fs h
        (rw (number_value-string v (rest_text gap fs)) (ground arith))
      ∙ ih
  number-field (number n k) fs h ih = elim (Bool-cases (text_eq name n)) [
    | inl same ↦
        found number_value (number n k) (rest_text gap fs) (to_string (pos k), rest_text gap fs) h
          same (number_value-number k fs)
        ∙ rw same refl
    | inr other ↦ passed number_value (number n k) fs h (rw other refl) ∙ ih ∙ rw other refl
  ]

  -- A comma and a gap are passed over.
  rest-search :
      (g : Text → Option (Text × Text)) (f : Field) (fs : List Field)
      → search (matching name g) (rest_text gap (f ∷ fs))
        ≡ search (matching name g) (field_text gap f (rest_text gap fs))
  rest-search g f fs =
      let field = field_text gap f (rest_text gap fs) in
      search_next (matching name g) b',' (gap ++ field)
        (no_match name is_name g b',' (gap ++ field) refl)
      ∙ search-NoQuote name is_name g gap field (gap-NoQuote gap spaces gap spaces)

  string-rest :
      (fs : List Field)
      → All IsField fs
      → group (search (matching name string_value) (rest_text gap fs)) ≡ string_named name fs
  unfolding search after_field after_literal
  string-rest [] h = refl
  string-rest (f ∷ fs) h =
      ap group (rest-search string_value f fs) ∙ string-field f fs h.0 (string-rest fs h.1)

  number-rest :
      (fs : List Field)
      → All IsField fs
      → group (search (matching name number_value) (rest_text gap fs)) ≡ digits_named name fs
  unfolding search after_field after_literal
  number-rest [] h = refl
  number-rest (f ∷ fs) h =
      ap group (rest-search number_value f fs) ∙ number-field f fs h.0 (number-rest fs h.1)

  object-search :
      (g : Text → Option (Text × Text)) (f : Field) (fs : List Field)
      → search (matching name g) (object_text gap (f ∷ fs))
        ≡ search (matching name g) (field_text gap f (rest_text gap fs))
  object-search g f fs =
      let field = field_text gap f (rest_text gap fs) in
      search_next (matching name g) b'{' field (no_match name is_name g b'{' field refl)

  -- In an object, each expression finds the first field that it fits.
  pub search-string_named :
      (fs : List Field)
      → All IsField fs
      → group (search (match_string_field name) (object_text gap fs)) ≡ string_named name fs
  unfolding match_string_field search after_field after_literal
  search-string_named [] h = refl
  search-string_named (f ∷ fs) h =
      ap group (object-search string_value f fs) ∙ string-field f fs h.0 (string-rest fs h.1)

  pub search-number_named :
      (fs : List Field)
      → All IsField fs
      → group (search (match_number_field name) (object_text gap fs)) ≡ digits_named name fs
  unfolding match_number_field search after_field after_literal
  search-number_named [] h = refl
  search-number_named (f ∷ fs) h =
      ap group (object-search number_value f fs) ∙ number-field f fs h.0 (number-rest fs h.1)
