-- ===== src/Common/Bags.antt =====
-- Lists of texts up to order: as often as it occurs is all that counts of a text.
use Prim.Native.Nat.{ℕ, ◌+◌}
use mathlib.Core.Path.{◌≡◌, ap}
use mathlib.Core.List.{List, [], ◌∷◌, ◌++◌}
use mathlib.Core.Quot
use mathlib.Core.Quot.{Quot, Quot-set}
use native.Mathlib.Omega.{arith}
use my_taskflow_system.Common.Tests.{if◌then◌else◌}
use my_taskflow_system.Common.Texts.{Text, text_eq}

abbrev pub count : Text → List Text → ℕ
count a [] = 0
count a (x ∷ xs) = (if text_eq x a then 1 else 0) + count a xs

pub count-append : (a : Text) (xs ys : List Text) → count a (xs ++ ys) ≡ count a xs + count a ys
count-append a [] ys = omega arith
count-append a (x ∷ xs) ys = omega (arith, count-append a xs ys)

abbrev pub SameTexts : List Text → List Text → Type 0
SameTexts xs ys = (a : Text) → count a xs ≡ count a ys

abbrev pub Bag : Type 0
Bag = Quot SameTexts

abbrev pub bag : List Text → Bag
bag = Quot.mk

unfoldable pub copies : Text → Bag → ℕ
copies a = Quot.lift (hlevel) (count a) λ xs ys h. h a

-- Two lists with the same bag have every text equally often.
pub exact : {xs ys : List Text} → bag xs ≡ bag ys → SameTexts xs ys
unfolding copies
exact e a = ap (copies a) e
