-- ===== src/Common/Decimal.antt =====
-- std::to_string, std::stoi and std::stoll: decimal texts of signed integers.
use Prim.Native.Nat.{ℕ, zero, suc, ◌+◌, ◌-◌, ◌*◌, ◌/◌, ◌%◌, ◌^◌, ◌≤◌, ◌<◌}
use mathlib.Core.Path.{refl, ◌≡◌, ap, ◌∙◌}
use mathlib.Core.Bool.{true, Bool, false, ◌&&◌, ◌||◌}
use mathlib.Core.List.{[], ◌∷◌, ◌++◌, append_assoc, append-nil}
use native.Mathlib.Omega.{arith}
use native.Mathlib.Nat.{pow-suc}
use mathlib.Core.Logic.{inl, inr}
use my_taskflow_system.Common.Tests.{Bool-cases, Bool-cases, ltb, leb, ◌==◌, if◌then◌else◌}
use my_taskflow_system.Common.Texts.{is_empty, Text, c_str}
use my_taskflow_system.Common.Lists.{All, All-append}
use my_taskflow_system.Common.Int.{ℤ, pos, negsuc, ◌≤ℤ◌, leb_ℤ}
use my_taskflow_system.Common.Exec.{Result, ok, throw, invalid_argument, out_of_range}

-- The decimal digits of a number below 10 ^ fuel.
unfoldable pub digits : ℕ → ℕ → Text
digits zero n = []
digits (suc f) n =
    let high = digits f (n / 10) in if ltb n 10 then (48 + n) ∷ [] else high ++ (48 + n % 10) ∷ []

-- 20 digits are enough for 64 bits.
unfoldable pub to_string : ℤ → Text
unfolding digits
to_string (pos n) = digits 20 n
to_string (negsuc n) = b'-' ∷ digits 20 (n + 1)

abbrev pub is_digit : ℕ → Bool
is_digit c = leb 48 c && leb c 57

-- isspace in the "C" locale.
abbrev pub is_space : ℕ → Bool
is_space c = c == 32 || (leb 9 c && leb c 13)

-- The number that the digits at the front stand for, after `acc`.
unfoldable pub read_digits : ℕ → Text → ℕ
read_digits acc [] = acc
read_digits acc (c ∷ s) =
    let more = read_digits (acc * 10 + (c - 48)) s in if is_digit c then more else acc

unfoldable pub starts_with_digit : Text → Bool
starts_with_digit [] = false
starts_with_digit (c ∷ s) = is_digit c

unfoldable pub skip_spaces : Text → Text
skip_spaces [] = []
skip_spaces (c ∷ s) = let rest = skip_spaces s in if is_space c then rest else c ∷ s

-- -n
abbrev pub negate : ℕ → ℤ
negate zero = pos 0
negate (suc n) = negsuc n

-- What strtoll makes of a text with no space in front; no conversion throws invalid_argument.
unfoldable pub read_signed : Text → Result ℤ
unfolding read_digits starts_with_digit
read_signed [] = throw invalid_argument
read_signed (c ∷ s) =
    if c == b'-'
    then if starts_with_digit s then ok (negate (read_digits 0 s)) else throw invalid_argument
    else if c == b'+'
    then if starts_with_digit s then ok (pos (read_digits 0 s)) else throw invalid_argument
    else if is_digit c
    then ok (pos (read_digits 0 (c ∷ s)))
    else throw invalid_argument

-- A number outside of the range of the type throws out_of_range.
unfoldable pub in_range : ℕ → Result ℤ → Result ℤ
in_range bound (throw e) = throw e
in_range bound (ok z) =
    if leb_ℤ (negsuc (bound - 1)) z && leb_ℤ z (pos (bound - 1)) then ok z else throw out_of_range

unfoldable pub stoi : Text → Result ℤ
unfolding in_range read_signed skip_spaces
stoi s = in_range (2 ^ 31) (read_signed (skip_spaces s))

unfoldable pub stoll : Text → Result ℤ
unfolding in_range read_signed skip_spaces
stoll s = in_range (2 ^ 63) (read_signed (skip_spaces s))

-- The numbers of an int and of an int64_t.
abbrev pub IsInt : ℤ → Type 0
IsInt z = (negsuc (2 ^ 31 - 1) ≤ℤ z) × (z ≤ℤ pos (2 ^ 31 - 1))

abbrev pub IsInt64 : ℤ → Type 0
IsInt64 z = (negsuc (2 ^ 63 - 1) ≤ℤ z) × (z ≤ℤ pos (2 ^ 63 - 1))

read-digits : (f n : ℕ) (t : Text) → n < 10 ^ f → read_digits 0 (digits f n ++ t) ≡ read_digits n t
unfolding digits read_digits
read-digits zero n t h = let z : n ≡ 0 = omega arith in rw z
read-digits (suc f) n t h =
    let grow : 10 ^ suc f ≡ 10 ^ f * 10 = rw pow-suc in
    let ih = read-digits f (n / 10) ((48 + n % 10) ∷ t) (omega (arith, grow)) in
    let front = append_assoc (digits f (n / 10)) ((48 + n % 10) ∷ []) t in ground (arith, ih, front)

-- A text that begins with a digit.
abbrev pub StartsWithDigit : Text → Type 0
StartsWithDigit s = (c : ℕ) × (r : Text) × (s ≡ c ∷ r) × (48 ≤ c) × (c ≤ 57)

digits_start : (f n : ℕ) (t : Text) → StartsWithDigit (digits (suc f) n ++ t)
unfolding digits
digits_start zero n t = elim (Bool-cases (ltb n 10)) [
  | inl small ↦ (48 + n, t, rw small, omega arith, ground arith)
  | inr large ↦ (48 + n % 10, t, rw large, omega arith, omega arith)
]
digits_start (suc f) n t = elim (Bool-cases (ltb n 10)) [
  | inl small ↦ (48 + n, t, rw small, omega arith, ground arith)
  | inr large ↦
      let (c, r, e, lo, hi) = digits_start f (n / 10) ((48 + n % 10) ∷ t) in
      (c, r, rw large (append_assoc (digits (suc f) (n / 10)) ((48 + n % 10) ∷ []) t ∙ e), lo, hi)
]

read_digits_text : (s : Text) → StartsWithDigit s → read_signed s ≡ ok (pos (read_digits 0 s))
unfolding read_signed
read_digits_text s (c, r, e, lo, hi) = rw e (ground arith)

pub skip_digits : (s : Text) → StartsWithDigit s → skip_spaces s ≡ s
unfolding skip_spaces
skip_digits s (c, r, e, lo, hi) = rw e (ground arith)

minus :
    (s : Text) (n : ℕ)
    → StartsWithDigit s
    → read_digits 0 s ≡ n + 1
    → read_signed (skip_spaces (b'-' ∷ s)) ≡ ok (negsuc n)
unfolding read_signed skip_spaces
minus s n (c, r, e, lo, hi) h = ground arith

digits_text :
    (n : ℕ) → n < 10 ^ 20 → (StartsWithDigit (digits 20 n)) × (read_digits 0 (digits 20 n) ≡ n)
unfolding read_digits
digits_text n h =
    let start = digits_start 19 n [] in
    let read = read-digits 20 n [] h in
    let tail = append-nil (digits 20 n) in (rw tail at start, rw tail at read)

read_signed-to_string : (z : ℤ) → IsInt64 z → read_signed (skip_spaces (to_string z)) ≡ ok z
unfolding to_string
read_signed-to_string (pos n) h =
    let (start, read) = digits_text n (omega arith) in
    ap read_signed (skip_digits (digits 20 n) start)
    ∙ read_digits_text (digits 20 n) start
    ∙ ap (λ m. ok (pos m)) read
read_signed-to_string (negsuc n) h =
    let (start, read) = digits_text (n + 1) (omega arith) in minus (digits 20 (n + 1)) n start read

-- Printing and reading back a number gives the number, in the range of int64_t.
pub stoll-to_string : (z : ℤ) → IsInt64 z → stoll (to_string z) ≡ ok z
unfolding stoll in_range
stoll-to_string z h = rw (read_signed-to_string z h) (ground arith)

-- The same in the range of int.
pub stoi-to_string : (z : ℤ) → IsInt z → stoi (to_string z) ≡ ok z
unfolding stoi in_range
stoi-to_string z h = rw (read_signed-to_string z (omega arith)) (ground arith)

-- A number that stands between a space and a carriage return.
pub stoi_field : (n : ℕ) → n < 2 ^ 31 → stoi (b' ' ∷ (to_string (pos n) ++ b'\r' ∷ [])) ≡ ok (pos n)
unfolding stoi in_range skip_spaces to_string read_digits
stoi_field n h =
    let text = digits 20 n ++ b'\r' ∷ [] in
    let start = digits_start 19 n (b'\r' ∷ []) in
    let read : read_signed (skip_spaces text) ≡ ok (pos n) =
      ap read_signed (skip_digits text start)
      ∙ read_digits_text text start
      ∙ ap (λ m. ok (pos m)) (read-digits 20 n (b'\r' ∷ []) (omega arith)) in
    rw read (ground arith)

-- What reads as a number is not empty.
pub stoi_not_empty : (t : Text) (z : ℤ) → stoi t ≡ ok z → is_empty t ≡ false
unfolding stoi
stoi_not_empty [] z e = cc
stoi_not_empty (a ∷ t) z e = refl

-- A text with no NUL is what C sees of it.
c_str_plain : (s : Text) → All (λ c. 45 ≤ c) s → c_str s ≡ s
unfolding c_str
c_str_plain [] h = refl
c_str_plain (c ∷ s) h = ground (arith, c_str_plain s h.1)

digits_plain : (f n : ℕ) → All (λ c. 45 ≤ c) (digits f n)
unfolding digits
digits_plain zero n = tt
digits_plain (suc f) n = elim (Bool-cases (ltb n 10)) [
  | inl small ↦ rw small (omega arith, tt)
  | inr large ↦ rw large (
      All-append _ (digits f (n / 10)) ((48 + n % 10) ∷ []) (digits_plain f (n / 10))
        (omega arith, tt))
]

-- A printed number has no NUL and is not empty.
pub c_str-to_string : (z : ℤ) → c_str (to_string z) ≡ to_string z
unfolding to_string
c_str-to_string (pos n) = c_str_plain (digits 20 n) (digits_plain 20 n)
c_str-to_string (negsuc n) =
    c_str_plain (b'-' ∷ digits 20 (n + 1)) (omega arith, digits_plain 20 (n + 1))

append_not_empty : (s t : Text) (c : ℕ) → is_empty (s ++ c ∷ t) ≡ false
append_not_empty [] t c = refl
append_not_empty (a ∷ s) t c = refl

pub to_string_not_empty : (z : ℤ) → is_empty (to_string z) ≡ false
unfolding to_string digits
to_string_not_empty (pos n) = elim (Bool-cases (ltb n 10)) [
  | inl small ↦ rw small refl
  | inr large ↦ rw large (append_not_empty (digits 19 (n / 10)) [] (48 + n % 10))
]
to_string_not_empty (negsuc n) = refl

-- A text of digits.
abbrev pub IsDigits : Text → Type 0
IsDigits = All (λ c. is_digit c ≡ true)

digits-IsDigits : (f n : ℕ) → IsDigits (digits f n)
unfolding digits
digits-IsDigits zero n = tt
digits-IsDigits (suc f) n = elim (Bool-cases (ltb n 10)) [
  | inl small ↦ rw small (ground arith, tt)
  | inr large ↦ rw large (
      All-append _ (digits f (n / 10)) ((48 + n % 10) ∷ []) (digits-IsDigits f (n / 10))
        (ground arith, tt))
]

-- A printed natural number is digits, at least one.
pub to_string-IsDigits : (n : ℕ) → IsDigits (to_string (pos n))
unfolding to_string
to_string-IsDigits n = digits-IsDigits 20 n

pub to_string-StartsWithDigit : (n : ℕ) (t : Text) → StartsWithDigit (to_string (pos n) ++ t)
unfolding to_string
to_string-StartsWithDigit n t = digits_start 19 n t
