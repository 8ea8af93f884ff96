-- ===== src/Gateway/RequestLines.antt =====
-- What handleConnection of gateway.cpp reads of the lines of a request.
use my_taskflow_system.Common.{
  ℕ, ◌≡◌, refl, ap, ◌∙◌, true, false, List, [], ◌∷◌, ◌++◌, Text, codes, All, All-append, ◌==◌,
  arith,
}
use my_taskflow_system.Common.Int.{pos}
use my_taskflow_system.Common.Decimal.{
  to_string-IsDigits, is_digit, to_string, is_space, skip_spaces,
}
use my_taskflow_system.Common.Search.{contains}
use my_taskflow_system.Gateway.Connection.{split_word, next_word, read_headers}
use my_taskflow_system.Gateway.QueryRoundTrip.{IsWithout}

-- A word of the request line.
abbrev pub IsWord : Text → Type 0
IsWord [] = ⊥
IsWord (c ∷ s) = (is_space c ≡ false) × All (λ d. is_space d ≡ false) s

-- A line of the header but the one for the length; it ends before its carriage return.
abbrev pub IsHeader : Text → Type 0
IsHeader [] = ⊥
IsHeader (c ∷ s) =
    ((c == b'\r') ≡ false)
    × IsWithout b'\n' (c ∷ s)
    × (contains (codes "Content-Length:") ((c ∷ s) ++ b'\r' ∷ []) ≡ false)

abbrev pub header_line : Text → Text
header_line s = s ++ b'\r' ∷ []

abbrev pub length_line : ℕ → Text
length_line n = codes "Content-Length:" ++ b' ' ∷ (to_string (pos n) ++ b'\r' ∷ [])

-- Lines, each with its newline, and what follows them.
abbrev pub lines_text : List Text → Text → Text
lines_text [] rest = rest
lines_text (s ∷ lines) rest = s ++ b'\n' ∷ lines_text lines rest

abbrev pub headers_of : List Text → List Text
headers_of [] = []
headers_of (s ∷ ss) = header_line s ∷ headers_of ss

abbrev pub request_line : Text → Text → Text
request_line method path = method ++ b' ' ∷ (path ++ codes " HTTP/1.1\r")

-- The header: other lines before and after that of the length.
abbrev pub header : List Text → List Text → ℕ → List Text
header front back n = headers_of front ++ length_line n ∷ headers_of back

abbrev pub head_text : Text → Text → List Text → List Text → ℕ → Text → Text
head_text method path front back n rest =
    request_line method path ++ b'\n' ∷ lines_text (header front back n) (codes "\r\n" ++ rest)

space_newline : (c : ℕ) → is_space c ≡ false → (c == b'\n') ≡ false
space_newline c h = ground arith

IsWord-IsWithout : (s : Text) → IsWord s → IsWithout b'\n' s
IsWord-IsWithout [] w = tt
IsWord-IsWithout (c ∷ s) w = (space_newline c w.0, tail s w.1)
  where
    tail : (t : Text) → All (λ d. is_space d ≡ false) t → IsWithout b'\n' t
    tail [] h = tt
    tail (d ∷ t) h = (space_newline d h.0, tail t h.1)

pub request_line-IsWithout :
    (method path : Text) → IsWord method → IsWord path → IsWithout b'\n' (request_line method path)
request_line-IsWithout method path m p =
    All-append _ method (b' ' ∷ (path ++ codes " HTTP/1.1\r")) (IsWord-IsWithout method m)
      (refl, All-append _ path (codes " HTTP/1.1\r") (IsWord-IsWithout path p) (ground arith))

split_word-append :
    (s t : Text) → All (λ d. is_space d ≡ false) s → split_word (s ++ b' ' ∷ t) ≡ (s, b' ' ∷ t)
unfolding split_word
split_word-append [] t h = refl
split_word-append (c ∷ s) t h = rw (h.0, split_word-append s t h.1) refl

pub next_word-IsWord : (s t : Text) → IsWord s → next_word (s ++ b' ' ∷ t) ≡ (s, b' ' ∷ t)
unfolding next_word skip_spaces
next_word-IsWord [] t w = absurd w
next_word-IsWord (c ∷ s) t w = rw w.0 (split_word-append (c ∷ s) t (w.0, w.1))

pub next_word-space : (s t : Text) → IsWord s → next_word (b' ' ∷ (s ++ b' ' ∷ t)) ≡ (s, b' ' ∷ t)
unfolding next_word skip_spaces
next_word-space s t w = next_word-IsWord s t w

-- The lines of the header.
read_headers-middle :
    (s rest : Text)
    → IsWithout b'\n' s
    → read_headers false (s ++ b'\n' ∷ rest)
      ≡ (s ∷ (read_headers true rest).0, (read_headers true rest).1)
unfolding read_headers
read_headers-middle [] rest h = refl
read_headers-middle (c ∷ s) rest h = rw (h.0, read_headers-middle s rest h.1) refl

read_headers-line :
    (c : ℕ) (s rest : Text)
    → (c == b'\r') ≡ false
    → IsWithout b'\n' (c ∷ s)
    → read_headers true ((c ∷ s) ++ b'\n' ∷ rest)
      ≡ ((c ∷ s) ∷ (read_headers true rest).0, (read_headers true rest).1)
unfolding read_headers
read_headers-line c s rest r h = rw (r, h.0, read_headers-middle s rest h.1) refl

abbrev pub IsLine : Text → Type 0
IsLine [] = ⊥
IsLine (c ∷ s) = ((c == b'\r') ≡ false) × IsWithout b'\n' (c ∷ s)

pub read_headers-lines_text :
    (lines : List Text) (body : Text)
    → All IsLine lines
    → read_headers true (lines_text lines (codes "\r\n" ++ body)) ≡ (lines, body)
unfolding read_headers
read_headers-lines_text [] body h = refl
read_headers-lines_text ([] ∷ lines) body h = absurd h.0
read_headers-lines_text ((c ∷ s) ∷ lines) body h =
    read_headers-line c s (lines_text lines (codes "\r\n" ++ body)) h.0.0 h.0.1
    ∙ ap (λ r. ((c ∷ s) ∷ r.0, r.1)) (read_headers-lines_text lines body h.1)

header_line-IsLine : (s : Text) → IsHeader s → IsLine (header_line s)
header_line-IsLine [] h = absurd h
header_line-IsLine (c ∷ s) h =
    (h.0, All-append (λ d. (d == b'\n') ≡ false) (c ∷ s) (b'\r' ∷ []) h.1 (refl, tt))

headers_of-IsLine : (ss : List Text) → All IsHeader ss → All IsLine (headers_of ss)
headers_of-IsLine [] h = tt
headers_of-IsLine (s ∷ ss) h = (header_line-IsLine s h.0, headers_of-IsLine ss h.1)

digits_newline : (s : Text) → All (λ c. is_digit c ≡ true) s → IsWithout b'\n' s
digits_newline [] h = tt
digits_newline (c ∷ s) h = (ground (arith, h.0), digits_newline s h.1)

length_line-IsLine : (n : ℕ) → IsLine (length_line n)
length_line-IsLine n = (
  refl,
  All-append (λ d. (d == b'\n') ≡ false) (codes "Content-Length: ")
      (to_string (pos n) ++ b'\r' ∷ []) (ground arith)
      (All-append (λ d. (d == b'\n') ≡ false) (to_string (pos n)) (b'\r' ∷ [])
        (digits_newline (to_string (pos n)) (to_string-IsDigits n)) (refl, tt)),
)

pub header-IsLine :
    (front back : List Text) (n : ℕ)
    → All IsHeader front
    → All IsHeader back
    → All IsLine (header front back n)
header-IsLine front back n f b =
    All-append IsLine (headers_of front) (length_line n ∷ headers_of back)
      (headers_of-IsLine front f) (length_line-IsLine n, headers_of-IsLine back b)
