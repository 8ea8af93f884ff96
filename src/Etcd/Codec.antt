-- ===== src/Etcd/Codec.antt =====
-- common/etcd_client.cpp, encodeValue and decodeValue.
use my_taskflow_system.Common.{
  ℕ, zero, suc, ◌+◌, ◌-◌, ◌*◌, ◌/◌, ◌%◌, Bool, true, false, ◌&&◌, ◌||◌, Option, none, some, [], ◌∷◌,
  ◌++◌, Text, ◌==◌, ltb, leb, if◌then◌else◌,
}
use my_taskflow_system.Common.Int.{ℤ, pos, negsuc}
use my_taskflow_system.Common.Exec.{Result, ok, throw, invalid_argument}
use my_taskflow_system.Common.Decimal.{skip_spaces, negate}

-- A digit of std::hex.
abbrev pub hex_digit : ℕ → ℕ
hex_digit n = if ltb n 10 then 48 + n else 87 + n

-- The test of encodeValue: a quotation mark, a backslash, or a control character.
abbrev pub is_escaped : ℕ → Bool
is_escaped c = c == b'"' || c == b'\\' || ltb c 32

unfoldable pub encode_byte : ℕ → Text
encode_byte c =
    if is_escaped c then b'\\' ∷ b'u' ∷ hex_digit (c / 16) ∷ hex_digit (c % 16) ∷ [] else c ∷ []

unfoldable pub encode_value : Text → Text
unfolding encode_byte
encode_value [] = []
encode_value (c ∷ s) = encode_byte c ++ encode_value s

-- The value of a hexadecimal digit.
unfoldable pub hex_value : ℕ → Option ℕ
hex_value c =
    if leb 48 c && leb c 57
    then some (c - 48)
    else if leb 97 c && leb c 102
    then some (c - 87)
    else if leb 65 c && leb c 70
    then some (c - 55)
    else none

abbrev pub is_hex : ℕ → Bool
is_hex c = elim (hex_value c) [ some _ ↦ true | none ↦ false ]

-- The number of the hexadecimal digits at the front of a text, after `acc`.
unfoldable pub read_hex : ℕ → Text → ℕ
unfolding hex_value
read_hex acc [] = acc
read_hex acc (c ∷ s) = elim (hex_value c) [ some d ↦ read_hex (acc * 16 + d) s | none ↦ acc ]

-- What strtol in base 16 passes over in front of the digits: 0x or 0X, if a digit follows.
unfoldable pub skip_prefix : Text → Text
unfolding hex_value
skip_prefix (z ∷ x ∷ d ∷ s) =
    if z == b'0' && (x == b'x' || x == b'X') && is_hex d then d ∷ s else z ∷ x ∷ d ∷ s
skip_prefix s = s

unfoldable pub hex_number : Text → Result ℕ
unfolding hex_value read_hex
hex_number [] = throw invalid_argument
hex_number (c ∷ s) = if is_hex c then ok (read_hex 0 (c ∷ s)) else throw invalid_argument

abbrev pub signed_by : (ℕ → ℤ) → Result ℕ → Result ℤ
signed_by f (ok n) = ok (f n)
signed_by f (throw e) = throw e

unfoldable pub stoi_signed : Text → Result ℤ
unfolding skip_prefix hex_number
stoi_signed [] = throw invalid_argument
stoi_signed (c ∷ s) =
    if c == b'-'
    then signed_by negate (hex_number (skip_prefix s))
    else if c == b'+'
    then signed_by pos (hex_number (skip_prefix s))
    else signed_by pos (hex_number (skip_prefix (c ∷ s)))

-- std::stoi(s, nullptr, 16) of four bytes, which no int is too small for.
unfoldable pub stoi_hex : Text → Result ℤ
unfolding stoi_signed
stoi_hex s = stoi_signed (skip_spaces s)

-- (char)n
abbrev pub to_byte : ℤ → ℕ
to_byte (pos n) = n % 256
to_byte (negsuc n) = 255 - n % 256

-- The four bytes after \u at the front of a text, if there are so many.
unfoldable pub escape_at : Text → Option Text
escape_at (b ∷ u ∷ h ∷ i ∷ j ∷ k ∷ s) =
    if b == b'\\' && u == b'u' then some (h ∷ i ∷ j ∷ k ∷ []) else none
escape_at s = none

abbrev pub prepend : ℕ → Result Text → Result Text
prepend c (ok s) = ok (c ∷ s)
prepend c (throw e) = throw e

abbrev pub prepend_byte : Result ℤ → Result Text → Result Text
prepend_byte (ok n) rest = prepend (to_byte n) rest
prepend_byte (throw e) rest = throw e

-- The loop of decodeValue; the number counts the bytes that `i += 5` passes over.
unfoldable pub decode_from : ℕ → Text → Result Text
unfolding escape_at stoi_hex
decode_from skipped [] = ok []
decode_from (suc k) (c ∷ s) = decode_from k s
decode_from zero (c ∷ s) = elim (escape_at (c ∷ s)) [
  | some hex ↦ prepend_byte (stoi_hex hex) (decode_from 5 s)
  | none ↦ prepend c (decode_from zero s)
]

unfoldable pub decode_value : Text → Result Text
unfolding decode_from
decode_value s = decode_from zero s
