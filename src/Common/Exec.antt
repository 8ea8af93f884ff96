-- ===== src/Common/Exec.antt =====
-- Exceptions of the standard library as values, and stateful code that may throw: a throw keeps the
-- state that the calls before it left.
use mathlib.Core.Path.{◌≡◌, ap, refl}
use mathlib.Core.Logic.{◌⊎◌, inl, inr}

pub data Error : Type 0 where
  invalid_argument out_of_range : Error

pub data Result {ℓ} (A : Type ℓ) : Type ℓ where
  ok : A → Result A
  throw : Error → Result A

abbrev pub Exec : Type 0 → Type 0 → Type 0
Exec S A = S → Result A × S

infixl 5 ◌>>=◌ ◌>>◌
abbrev pub bind : {S A B : Type 0} → Result A × S → (A → Exec S B) → Result B × S
bind (ok a, s) f = f a s
bind (throw e, s) f = (throw e, s)

abbrev pub ◌>>=◌ : {S A B : Type 0} → Exec S A → (A → Exec S B) → Exec S B
◌>>=◌ m f s = bind (m s) f

abbrev pub ◌>>◌ : {S A B : Type 0} → Exec S A → Exec S B → Exec S B
◌>>◌ m k s = bind (m s) (λ _. k)

abbrev pub pure : {S A : Type 0} → A → Exec S A
pure a s = (ok a, s)

-- A value that may be an exception.
abbrev pub lift : {S A : Type 0} → Result A → Exec S A
lift r s = (r, s)

-- What follows a call that returns.
pub bind_ok :
    {S A B : Type 0} (r : Result A × S) (a : A) (f : A → Exec S B) → r.0 ≡ ok a → bind r f ≡ f a r.1
bind_ok r a f e = ap (λ x. bind (x, r.1) f) e

pub Result-cases {ℓ} :
    {A : Type ℓ} (r : Result A) → ((a : A) × (r ≡ ok a)) ⊎ ((e : Error) × (r ≡ throw e))
Result-cases (ok a) = inl (a, refl)
Result-cases (throw e) = inr (e, refl)

-- A result that, if there is one, has the property.
abbrev pub Every {ℓ κ} : {A : Type ℓ} → (A → Type κ) → Result A → Type κ
Every P (ok a) = P a
Every P (throw e) = Unit

pub bind-Every :
    {S A B : Type 0} (P : A → Type 0) (Q : B → Type 0) (r : Result A × S) (f : A → Exec S B)
    → Every P r.0
    → ((a : A) → P a → Every Q (f a r.1).0)
    → Every Q (bind r f).0
bind-Every P Q (ok a, s) f h k = k a h
bind-Every P Q (throw e, s) f h k = tt
