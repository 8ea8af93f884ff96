-- ===== src/Gateway/QueryRoundTrip.antt =====
-- Query strings written and read back.
use my_taskflow_system.Common.{
  ℕ, ◌≡◌, refl, ap, ◌∙◌, false, none, some, [], ◌∷◌, ◌++◌, Text, text_eq, All, All-append, ◌==◌,
  arith, if◌then◌else◌,
}
use my_taskflow_system.Common.Maps.{Map, find, put, find-put}
use my_taskflow_system.Common.Search.{split_at}
use my_taskflow_system.Gateway.Query.{
  get_lines, extract_path, query_string, add_pair, add_pairs, parse_query_params, parse_query_param,
}

-- No character of a text is the separator.
abbrev pub IsWithout : ℕ → Text → Type 0
IsWithout sep = All (λ c. (c == sep) ≡ false)

abbrev pub written : Text × Text → Text
written (key, value) = key ++ b'=' ∷ value

abbrev pub render : Map Text → Text
render [] = []
render (e ∷ []) = written e
render (e ∷ d ∷ m) = written e ++ b'&' ∷ render (d ∷ m)

-- The value that the last of the entries with the key has.
abbrev pub latest : Text → Map Text → Text → Text
latest k [] unset = unset
latest k ((j, v) ∷ m) unset = latest k m (if text_eq j k then v else unset)

abbrev pub IsPair : Text × Text → Type 0
IsPair e = IsWithout b'=' e.0 × IsWithout b'&' e.0 × IsWithout b'&' e.1

pub split_at-append :
    (sep : ℕ) (s t : Text) → IsWithout sep s → split_at sep (s ++ sep ∷ t) ≡ some (s, t)
unfolding split_at
split_at-append sep [] t h = ground arith
split_at-append sep (c ∷ s) t h = rw (h.0, split_at-append sep s t h.1) refl

get_lines-append :
    (sep : ℕ) (s t : Text) → IsWithout sep s → get_lines sep (s ++ sep ∷ t) ≡ s ∷ get_lines sep t
unfolding get_lines
get_lines-append sep [] t h = ground arith
get_lines-append sep (c ∷ s) t h = rw (h.0, get_lines-append sep s t h.1) refl

get_lines-last :
    (sep c : ℕ) (s : Text) → IsWithout sep (c ∷ s) → get_lines sep (c ∷ s) ≡ (c ∷ s) ∷ []
unfolding get_lines
get_lines-last sep c [] h = rw h.0 refl
get_lines-last sep c (d ∷ s) h = rw (h.0, get_lines-last sep d s h.1) refl

written-IsWithout : (e : Text × Text) → IsPair e → IsWithout b'&' (written e)
written-IsWithout e h = All-append _ e.0 (b'=' ∷ e.1) h.1 (refl, h.2)

get_lines-written : (e : Text × Text) → IsPair e → get_lines b'&' (written e) ≡ written e ∷ []
get_lines-written ([], value) h = get_lines-last b'&' b'=' value (refl, h.2)
get_lines-written (c ∷ key, value) h =
    get_lines-last b'&' c (key ++ b'=' ∷ value) (written-IsWithout (c ∷ key, value) h)

add_pair-written :
    (e : Text × Text) (m : Map Text) → IsPair e → add_pair (written e) m ≡ put e.0 e.1 m
unfolding add_pair
add_pair-written e m h = rw (add_pair, split_at-append b'=' e.0 e.1 h.0) refl

value_of : Text → Map Text → Text → Text
value_of k m unset = elim (find k m) [ some v ↦ v | none ↦ unset ]

value_of-put :
    (k j v : Text) (m : Map Text)
    → value_of k (put j v m) [] ≡ (if text_eq j k then v else value_of k m [])
unfolding value_of
value_of-put k j v m = ground (arith, find-put j k v m)

add_pairs-render :
    (k : Text) (m params : Map Text)
    → All IsPair m
    → value_of k (add_pairs (get_lines b'&' (render m)) params) []
      ≡ latest k m (value_of k params [])
unfolding add_pairs get_lines
add_pairs-render k [] params h = refl
add_pairs-render k (e ∷ []) params h =
    rw (get_lines-written e h.0, add_pairs, add_pair-written e params h.0)
      (value_of-put k e.0 e.1 params)
add_pairs-render k (e ∷ d ∷ m) params h =
    rw
      (
        get_lines-append b'&' (written e) (render (d ∷ m)) (written-IsWithout e h.0),
        add_pairs,
        add_pair-written e params h.0,
      )
      (add_pairs-render k (d ∷ m) (put e.0 e.1 params) h.1
        ∙ ap (latest k (d ∷ m)) (value_of-put k e.0 e.1 params))

-- A path with a query string: extractPath gives the path back, and parseQueryParam the value that
-- the last entry with the key has, and "" for a key that no entry has. The path has no question
-- mark, the keys and the values no ampersand, and the keys no equals sign.
pub parse_query_param-render :
    (path key : Text) (m : Map Text)
    → IsWithout b'?' path
    → All IsPair m
    → (extract_path (path ++ b'?' ∷ render m) ≡ path)
      × (parse_query_param (path ++ b'?' ∷ render m) key ≡ latest key m [])
unfolding extract_path parse_query_param parse_query_params query_string value_of find
parse_query_param-render path key m h k =
    let split = split_at-append b'?' path (render m) h in
    let value : value_of key (parse_query_params (path ++ b'?' ∷ render m)) [] ≡ latest key m [] =
      rw (query_string, split) (add_pairs-render key m [] k) in
    (rw (extract_path, split) refl, value)
