-- ===== src/Common/Search.antt =====
-- Searches in texts: std::string::find and the regular expressions that the program uses, each a
-- literal followed by a class of characters.
use Prim.Native.Nat.{ℕ, zero, suc, ◌+◌}
use mathlib.Core.Bool.{Bool, true, false}
use mathlib.Core.Option.{Option, none, some}
use mathlib.Core.Option
use mathlib.Core.List.{List, [], ◌∷◌}
use my_taskflow_system.Common.Tests.{◌==◌, if◌then◌else◌}
use my_taskflow_system.Common.Texts.{Text}
use my_taskflow_system.Common.Lists.{length}
use my_taskflow_system.Common.Decimal.{is_digit}

-- What follows a literal at the front of a text.
unfoldable pub after_literal : Text → Text → Option Text
after_literal [] s = some s
after_literal (l ∷ lit) [] = none
after_literal (l ∷ lit) (c ∷ s) = let rest = after_literal lit s in if l == c then rest else none

-- The text up to the first quotation mark, and what follows the mark.
unfoldable pub up_to_quote : Text → Option (Text × Text)
up_to_quote [] = none
up_to_quote (c ∷ s) =
    let rest = Option.map (λ (r : Text × Text). (c ∷ r.0, r.1)) (up_to_quote s) in
    if c == b'"' then some ([], s) else rest

-- The digits at the front of a text, and the rest.
unfoldable pub split_digits : Text → Text × Text
split_digits [] = ([], [])
split_digits (c ∷ s) =
    let rest = split_digits s in if is_digit c then (c ∷ rest.0, rest.1) else ([], c ∷ s)

abbrev pub some_digits : Text × Text → Option (Text × Text)
some_digits ([], rest) = none
some_digits (c ∷ d, rest) = some (c ∷ d, rest)

abbrev pub and_then {ℓ κ} : {A : Type ℓ} {B : Type κ} → Option A → (A → Option B) → Option B
and_then none f = none
and_then (some a) f = f a

-- literal ([^"]*) " at the front.
unfoldable pub match_quoted : Text → Text → Option (Text × Text)
unfolding after_literal up_to_quote
match_quoted lit s = and_then (after_literal lit s) up_to_quote

-- literal ([0-9]+) at the front.
unfoldable pub match_digits : Text → Text → Option (Text × Text)
unfolding after_literal split_digits
match_digits lit s = and_then (after_literal lit s) (λ t. some_digits (split_digits t))

-- std::regex_search: the first position at which an expression matches.
unfoldable pub search {ℓ} : {A : Type ℓ} → (Text → Option A) → Text → Option A
search f [] = f []
search f (c ∷ s) = elim (f (c ∷ s)) [ some a ↦ some a | none ↦ search f s ]

-- The loop that searches again in what follows a match: the first group of every match. The number
-- counts the bytes of the last match that are still to be passed over.
unfoldable pub search_all : Text → ℕ → Text → List Text
unfolding match_quoted
search_all lit skipped [] = []
search_all lit (suc k) (c ∷ s) = search_all lit k s
search_all lit zero (c ∷ s) = elim (match_quoted lit (c ∷ s)) [
  | some (group, rest) ↦ group ∷ search_all lit (length lit + length group) s
  | none ↦ search_all lit zero s
]

-- s.find(c) as a split: what stands before the first c and what after it.
unfoldable pub split_at : ℕ → Text → Option (Text × Text)
split_at sep [] = none
split_at sep (c ∷ s) =
    let rest = Option.map (λ (r : Text × Text). (c ∷ r.0, r.1)) (split_at sep s) in
    if c == sep then some ([], s) else rest

-- s.find_last_of(c): what stands after the last c.
unfoldable pub after_last : ℕ → Text → Option Text
after_last sep [] = none
after_last sep (c ∷ s) = elim (after_last sep s) [
  | some rest ↦ some rest
  | none ↦ if c == sep then some s else none
]

-- s.find(lit) == 0
unfoldable pub starts_with : Text → Text → Bool
unfolding after_literal
starts_with lit s = elim (after_literal lit s) [ some _ ↦ true | none ↦ false ]

-- s.find(lit) != npos
unfoldable pub contains : Text → Text → Bool
unfolding search after_literal
contains lit s = elim (search (after_literal lit) s) [ some _ ↦ true | none ↦ false ]

-- A character in front of the first of some texts.
abbrev pub put_first : ℕ → List Text → List Text
put_first c [] = (c ∷ []) ∷ []
put_first c (line ∷ lines) = (c ∷ line) ∷ lines
