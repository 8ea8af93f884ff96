-- ===== src/Gateway/Query.antt =====
-- gateway/http_handler.cpp, parseQueryParam to parseQueryParams.
use my_taskflow_system.Common.{ℕ, none, some, List, [], ◌∷◌, Text, ◌==◌, if◌then◌else◌}
use my_taskflow_system.Common.Maps.{Map, find, put}
use my_taskflow_system.Common.Search.{split_at, put_first}

-- What std::getline gives with a separator until it fails: an empty text after the last separator
-- does not count.
unfoldable pub get_lines : ℕ → Text → List Text
get_lines sep [] = []
get_lines sep (c ∷ s) =
    let rest = get_lines sep s in if c == sep then [] ∷ rest else put_first c rest

unfoldable pub extract_path : Text → Text
unfolding split_at
extract_path path = elim (split_at b'?' path) [ some (front, rest) ↦ front | none ↦ path ]

-- query_string
unfoldable pub query_string : Text → Text
unfolding split_at
query_string query = elim (split_at b'?' query) [ some (front, rest) ↦ rest | none ↦ query ]

-- The body of the loop of parseQueryParams.
unfoldable pub add_pair : Text → Map Text → Map Text
unfolding split_at
add_pair pair params = elim (split_at b'=' pair) [
  | some (key, value) ↦ put key value params
  | none ↦ params
]

unfoldable pub add_pairs : List Text → Map Text → Map Text
unfolding add_pair
add_pairs [] params = params
add_pairs (pair ∷ pairs) params = add_pairs pairs (add_pair pair params)

unfoldable pub parse_query_params : Text → Map Text
unfolding query_string get_lines add_pairs
parse_query_params query = add_pairs (get_lines b'&' (query_string query)) []

unfoldable pub parse_query_param : Text → Text → Text
unfolding parse_query_params
parse_query_param query key = elim (find key (parse_query_params query)) [
  | some value ↦ value
  | none ↦ []
]
