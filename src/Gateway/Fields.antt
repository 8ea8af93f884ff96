-- ===== src/Gateway/Fields.antt =====
-- gateway/http_handler.cpp, handleSubmitTask: its regular expressions on the text of a JSON object
-- with any fields.
use my_taskflow_system.Common.{
  ℕ, ◌<◌, ◌^◌, ◌≡◌, refl, ◌∙◌, true, false, ◌&&◌, not, Option, none, some, List, [], ◌∷◌, ◌++◌,
  Text, codes, text_eq, is_empty, All, Bool-cases, inl, inr, ◌==◌, arith, if◌then◌else◌,
}
use my_taskflow_system.Common.Int.{pos}
use my_taskflow_system.Common.Decimal.{
  to_string, is_space, skip_spaces, skip_digits, to_string-IsDigits, to_string-StartsWithDigit,
  is_digit, IsDigits,
}
use my_taskflow_system.Common.Search.{search, after_literal, and_then}
use my_taskflow_system.Gateway.Body.{after_field}

-- A field with a text or with a number.
pub data Field : Type 0 where
  string : Text → Text → Field
  number : Text → ℕ → Field

-- The first text that is not empty, and the first number, in a field with the name.
abbrev pub string_named : Text → List Field → Option Text
string_named name [] = none
string_named name (string n v ∷ fs) =
    if text_eq name n && not (is_empty v) then some v else string_named name fs
string_named name (number n k ∷ fs) = string_named name fs

abbrev pub number_named : Text → List Field → Option ℕ
number_named name [] = none
number_named name (string n v ∷ fs) = number_named name fs
number_named name (number n k ∷ fs) = if text_eq name n then some k else number_named name fs

-- Every byte of a text but no quotation mark.
abbrev pub NoQuote : Text → Type 0
NoQuote = All (λ c. (c == b'"') ≡ false)

abbrev pub IsField : Field → Type 0
IsField (string n v) = NoQuote n × NoQuote v
IsField (number n k) = NoQuote n × (k < 2 ^ 31)

-- "name":value, with a gap after the colon.
abbrev pub value_text : Field → Text → Text
value_text (string n v) rest = b'"' ∷ (v ++ b'"' ∷ rest)
value_text (number n k) rest = to_string (pos k) ++ rest

abbrev pub name_of : Field → Text
name_of (string n v) = n
name_of (number n k) = n

abbrev pub field_text : Text → Field → Text → Text
field_text gap f rest = b'"' ∷ (name_of f ++ (b'"' ∷ b':' ∷ (gap ++ value_text f rest)))

abbrev pub rest_text : Text → List Field → Text
rest_text gap [] = b'}' ∷ []
rest_text gap (f ∷ fs) = b',' ∷ (gap ++ field_text gap f (rest_text gap fs))

-- The object with these fields; the gap is written after each colon and each comma.
abbrev pub object_text : Text → List Field → Text
object_text gap [] = codes "{}"
object_text gap (f ∷ fs) = b'{' ∷ field_text gap f (rest_text gap fs)

-- The quoted name at the front, against the name that is looked for.
after_name :
    (name n t : Text)
    → NoQuote name
    → NoQuote n
    → after_literal (name ++ b'"' ∷ []) (n ++ b'"' ∷ t) ≡ (if text_eq name n then some t else none)
unfolding after_literal text_eq
after_name [] [] t h k = refl
after_name [] (c ∷ n) t h k = ground arith
after_name (a ∷ name) [] t h k = ground arith
after_name (a ∷ name) (c ∷ n) t h k = ground (arith, after_name name n t h.1 k.1)

-- A name that a colon, a comma or a brace does not begin.
abbrev pub IsName : Text → Type 0
IsName name =
    NoQuote name
    × ((t : Text) → after_literal (name ++ b'"' ∷ []) (b':' ∷ t) ≡ none)
    × ((t : Text) → after_literal (name ++ b'"' ∷ []) (b',' ∷ t) ≡ none)
    × ((t : Text) → after_literal (name ++ b'"' ∷ []) (b'}' ∷ t) ≡ none)

-- An expression that begins with a quoted name, a colon and spaces.
abbrev pub matching : Text → (Text → Option (Text × Text)) → Text → Option (Text × Text)
matching name g s = and_then (after_field name s) g

pub search_next :
    (f : Text → Option (Text × Text)) (c : ℕ) (s : Text)
    → f (c ∷ s) ≡ none
    → search f (c ∷ s) ≡ search f s
unfolding search
search_next f c s h = rw (h, search) refl

pub search_here :
    (f : Text → Option (Text × Text)) (c : ℕ) (s : Text) (x : Text × Text)
    → f (c ∷ s) ≡ some x
    → search f (c ∷ s) ≡ some x
unfolding search
search_here f c s x h = rw (h, search) refl

module _ (name : Text) (is_name : IsName name) (g : Text → Option (Text × Text)) where
  pub no_match : (c : ℕ) (s : Text) → (c == b'"') ≡ false → matching name g (c ∷ s) ≡ none
  unfolding after_field after_literal
  no_match c s h = ground arith

  pub search-NoQuote :
      (s t : Text) → NoQuote s → search (matching name g) (s ++ t) ≡ search (matching name g) t
  search-NoQuote [] t h = refl
  search-NoQuote (c ∷ s) t h =
      search_next (matching name g) c (s ++ t) (no_match c (s ++ t) h.0) ∙ search-NoQuote s t h.1

  -- A quotation mark with one of these behind it begins no match.
  search-colon :
      (s : Text) → search (matching name g) (b'"' ∷ b':' ∷ s) ≡ search (matching name g) s
  unfolding after_field after_literal
  search-colon s =
      search_next (matching name g) b'"' (b':' ∷ s)
        (rw (after_field, after_literal, is_name.1 s) refl)
      ∙ search_next (matching name g) b':' s (no_match b':' s refl)

  -- A text that a comma or a brace follows is no name of a field.
  text_match :
      (v t : Text) (c : ℕ)
      → NoQuote v
      → skip_spaces (c ∷ t) ≡ c ∷ t
      → after_literal (codes ":") (c ∷ t) ≡ none
      → matching name g (b'"' ∷ (v ++ b'"' ∷ c ∷ t)) ≡ none
  unfolding after_field after_literal
  text_match v t c h sp e = elim (Bool-cases (text_eq name v)) [
    | inl same ↦
        rw (after_field, after_literal, after_name name v (c ∷ t) is_name.0 h, same, sp, e) refl
    | inr other ↦ rw (after_field, after_literal, after_name name v (c ∷ t) is_name.0 h, other) refl
  ]

module _ (gap : Text) (spaces : All (λ c. is_space c ≡ true) gap) where
  skip_gap : (s t : Text) → All (λ c. is_space c ≡ true) s → skip_spaces (s ++ t) ≡ skip_spaces t
  unfolding skip_spaces
  skip_gap [] t h = refl
  skip_gap (c ∷ s) t h = rw (skip_spaces, h.0) (skip_gap s t h.1)

  skip_value : (f : Field) (rest : Text) → skip_spaces (value_text f rest) ≡ value_text f rest
  unfolding skip_spaces
  skip_value (string n v) rest = refl
  skip_value (number n k) rest =
      skip_digits (to_string (pos k) ++ rest) (to_string-StartsWithDigit k rest)

  pub gap-NoQuote : (s : Text) → All (λ c. is_space c ≡ true) s → NoQuote s
  gap-NoQuote [] h = tt
  gap-NoQuote (c ∷ s) h = (ground (arith, h.0), gap-NoQuote s h.1)

  digits-NoQuote : (s : Text) → IsDigits s → NoQuote s
  digits-NoQuote [] h = tt
  digits-NoQuote (c ∷ s) h = (ground (arith, h.0), digits-NoQuote s h.1)

  name_of-NoQuote : (f : Field) → IsField f → NoQuote (name_of f)
  name_of-NoQuote (string n v) h = h.0
  name_of-NoQuote (number n k) h = h.0

  -- What stands behind a field: a comma or a brace.
  abbrev pub Ends : Text → Type 0
  Ends rest =
      (c : ℕ) × (t : Text) × (rest ≡ c ∷ t)
      × (is_digit c ≡ false)
      × (skip_spaces (c ∷ t) ≡ c ∷ t)
      × (after_literal (codes ":") (c ∷ t) ≡ none)
      × ((name : Text) → IsName name → after_literal (name ++ b'"' ∷ []) (c ∷ t) ≡ none)

  pub rest_text-Ends : (fs : List Field) → Ends (rest_text gap fs)
  unfolding skip_spaces after_literal
  rest_text-Ends [] = (b'}', [], refl, refl, refl, refl, λ name h. h.3 [])
  rest_text-Ends (f ∷ fs) =
      (b',', gap ++ field_text gap f (rest_text gap fs), refl, refl, refl, refl, λ name h. h.2 _)

  module _ (name : Text) (is_name : IsName name) (g : Text → Option (Text × Text)) where
    -- At the front of a field.
    pub field-matching :
        (f : Field) (rest : Text)
        → IsField f
        → matching name g (field_text gap f rest)
          ≡ (if text_eq name (name_of f) then g (value_text f rest) else none)
    unfolding after_field after_literal
    field-matching f rest h =
        let t = b':' ∷ (gap ++ value_text f rest) in
        let found = after_name name (name_of f) t is_name.0 (name_of-NoQuote f h) in
        let skipped = skip_gap gap (value_text f rest) spaces ∙ skip_value f rest in
        elim (Bool-cases (text_eq name (name_of f))) [
          | inl same ↦ rw (after_field, after_literal, found, same, skip_spaces, skipped) refl
          | inr other ↦ rw (after_field, after_literal, found, other) refl
        ]

    value-search :
        (f : Field) (rest : Text)
        → IsField f
        → Ends rest
        → search (matching name g) (value_text f rest) ≡ search (matching name g) rest
    unfolding after_field after_literal
    value-search (string n v) rest h (c, t, e, digit, sp, colon, apart) = rw e (
        search_next (matching name g) b'"' (v ++ b'"' ∷ c ∷ t)
          (text_match name is_name g v t c h.1 sp colon)
        ∙ search-NoQuote name is_name g v (b'"' ∷ c ∷ t) h.1
        ∙ search_next (matching name g) b'"' (c ∷ t)
            (rw (after_field, after_literal, apart name is_name) refl))
    value-search (number n k) rest h ends =
        search-NoQuote name is_name g (to_string (pos k)) rest
          (digits-NoQuote (to_string (pos k)) (to_string-IsDigits k))

    -- A field that is not the one is passed over.
    pub field-search :
        (f : Field) (rest : Text)
        → IsField f
        → Ends rest
        → matching name g (field_text gap f rest) ≡ none
        → search (matching name g) (field_text gap f rest) ≡ search (matching name g) rest
    field-search f rest h ends e =
        let value = value_text f rest in
        search_next (matching name g) b'"' (name_of f ++ (b'"' ∷ b':' ∷ (gap ++ value))) e
        ∙ search-NoQuote name is_name g (name_of f) (b'"' ∷ b':' ∷ (gap ++ value))
            (name_of-NoQuote f h)
        ∙ search-colon name is_name g (gap ++ value)
        ∙ search-NoQuote name is_name g gap value (gap-NoQuote gap spaces)
        ∙ value-search f rest h ends
