-- ===== src/Balancer/Sample.antt =====
-- Insertion sort by hash, which keeps the law of std::sort, for the examples.
use my_taskflow_system.Common.{
  ℕ, ◌≤◌, refl, inl, inr, List, [], ◌∷◌, All, Permᴰ, Bool-cases, leb, if◌then◌else◌, arith,
}
use my_taskflow_system.Balancer.Strategies.{Circle}
use my_taskflow_system.Balancer.Choice.{Rising, Sorting}

unfoldable pub insert : Circle → List Circle → List Circle
insert c [] = c ∷ []
insert c (d ∷ ds) = let rest = insert c ds in if leb c.0 d.0 then c ∷ d ∷ ds else d ∷ rest

unfoldable pub sort : List Circle → List Circle
unfolding insert
sort [] = []
sort (c ∷ cs) = insert c (sort cs)

Permᴰ-refl : (cs : List Circle) → Permᴰ cs cs
Permᴰ-refl [] = Permᴰ.nil
Permᴰ-refl (c ∷ cs) = Permᴰ.cons refl (Permᴰ-refl cs)

insert-Permᴰ : (c : Circle) (cs : List Circle) → Permᴰ (insert c cs) (c ∷ cs)
unfolding insert
insert-Permᴰ c [] = Permᴰ.cons refl Permᴰ.nil
insert-Permᴰ c (d ∷ ds) = elim (Bool-cases (leb c.0 d.0)) [
  | inl first ↦ rw first (Permᴰ-refl (c ∷ d ∷ ds))
  | inr later ↦ rw later (Permᴰ.trans (Permᴰ.cons refl (insert-Permᴰ c ds)) (Permᴰ.swap refl refl))
]

sort-Permᴰ : (cs : List Circle) → Permᴰ (sort cs) cs
unfolding sort
sort-Permᴰ [] = Permᴰ.nil
sort-Permᴰ (c ∷ cs) = Permᴰ.trans (insert-Permᴰ c (sort cs)) (Permᴰ.cons refl (sort-Permᴰ cs))

insert-All :
    (n : ℕ) (c : Circle) (cs : List Circle)
    → n ≤ c.0
    → All (λ (d : Circle). n ≤ d.0) cs
    → All (λ (d : Circle). n ≤ d.0) (insert c cs)
unfolding insert
insert-All n c [] h hs = (h, tt)
insert-All n c (d ∷ ds) h hs = elim (Bool-cases (leb c.0 d.0)) [
  | inl first ↦ rw first (h, hs)
  | inr later ↦ rw later (hs.0, insert-All n c ds h hs.1)
]

All-below :
    (m n : ℕ) (cs : List Circle)
    → m ≤ n
    → All (λ (d : Circle). n ≤ d.0) cs
    → All (λ (d : Circle). m ≤ d.0) cs
All-below m n [] h hs = tt
All-below m n (c ∷ cs) h hs = (omega arith, All-below m n cs h hs.1)

insert-Rising : (c : Circle) (cs : List Circle) → Rising cs → Rising (insert c cs)
unfolding insert
insert-Rising c [] r = (tt, tt)
insert-Rising c (d ∷ ds) r = elim (Bool-cases (leb c.0 d.0)) [
  | inl first ↦ rw first ((ground arith, All-below c.0 d.0 ds (ground arith) r.0), r)
  | inr later ↦ rw later (insert-All d.0 c ds (ground arith) r.0, insert-Rising c ds r.1)
]

sort-Rising : (cs : List Circle) → Rising (sort cs)
unfolding sort
sort-Rising [] = tt
sort-Rising (c ∷ cs) = insert-Rising c (sort cs) (sort-Rising cs)

pub sort_laws : Sorting sort
sort_laws = record { rearranges = sort-Permᴰ; rising = sort-Rising }
