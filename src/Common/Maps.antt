-- ===== src/Common/Maps.antt =====
-- std::map<std::string, V>: the entries in the order of their keys.
use mathlib.Core.Path.{◌≡◌, refl}
use mathlib.Core.Option.{Option, none, some}
use mathlib.Core.List.{List, [], ◌∷◌}
use native.Mathlib.Omega.{arith}
use my_taskflow_system.Common.Tests.{if◌then◌else◌}
use my_taskflow_system.Common.Texts.{Text, text_eq, text_ltb, text_eq_iff}

abbrev pub Map {ℓ} : Type ℓ → Type ℓ
Map V = List (Text × V)

module _ {ℓ} {V : Type ℓ} where
  -- m.find(k)
  unfoldable pub find : Text → Map V → Option V
  find k [] = none
  find k ((j, v) ∷ m) = if text_eq j k then some v else find k m

  -- m[k] = v
  unfoldable pub put : Text → V → Map V → Map V
  put k v [] = (k, v) ∷ []
  put k v ((j, w) ∷ m) =
      if text_eq j k
      then (k, v) ∷ m
      else if text_ltb k j
      then (k, v) ∷ (j, w) ∷ m
      else (j, w) ∷ put k v m

  -- m.erase(k)
  unfoldable pub erase : Text → Map V → Map V
  erase k [] = []
  erase k ((j, v) ∷ m) = let rest = erase k m in if text_eq j k then rest else (j, v) ∷ rest

  pub find-put :
      (k i : Text) (v : V) (m : Map V)
      → find i (put k v m) ≡ (if text_eq k i then some v else find i m)
  unfolding find put
  find-put k i v [] = refl
  find-put k i v ((j, w) ∷ m) =
      ground (arith, text_eq_iff j k, text_eq_iff k i, text_eq_iff j i, find-put k i v m)

  pub find-erase :
      (k i : Text) (m : Map V) → find i (erase k m) ≡ (if text_eq k i then none else find i m)
  unfolding find erase
  find-erase k i [] = ground arith
  find-erase k i ((j, w) ∷ m) =
      ground (arith, text_eq_iff j k, text_eq_iff k i, text_eq_iff j i, find-erase k i m)
