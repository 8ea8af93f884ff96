-- ===== src/Balancer/Choice.antt =====
-- What selectWorker returns: always an eligible worker, if there is one, and which one under each
-- strategy.
use my_taskflow_system.Common.{
  ℕ, ◌%◌, ◌≤◌, ◌<◌, ◌≡◌, refl, sym, ◌∙◌, subst, ◌⊎◌, inl, inr, Option, none, some, List, [], ◌∷◌,
  Text, All, Memᴰ, Permᴰ, get_or-mem, length, Bool-cases, arith, leb,
}
use my_taskflow_system.Common.Int.{◌≤ℤ◌, ltb_ℤ}
use my_taskflow_system.Common.Maps.{Map}
use my_taskflow_system.Balancer.Model.{WorkerNode, LoadBalancer, Readings}
use my_taskflow_system.Balancer.Strategies.{
  Circle, circles, least_loaded, least_connection_pick, round_robin_pick, ring_pick, first_from,
  hash, least_connection_select, consistent_hash_select,
}
use my_taskflow_system.Balancer.Selection.{eligible, available-eligible}

abbrev Entry : Type 0
Entry = Text × WorkerNode

-- The choice of leastConnectionSelect: an entry of the list with no lower load before or after it.
pub record IsLeast (id : Text) (ws : Map WorkerNode) : Type 0 where
  pub node : WorkerNode
  pub member : Memᴰ (id, node) ws
  pub least : All (λ (e : Entry). node.current_load ≤ℤ e.1.current_load) ws

All-map {ℓ κ} :
    {A : Type ℓ} (P Q : A → Type κ) (xs : List A) → ((a : A) → P a → Q a) → All P xs → All Q xs
All-map P Q [] f h = tt
All-map P Q (x ∷ xs) f h = (f x h.0, All-map P Q xs f h.1)

least_loaded-IsLeast :
    (id : Text) (w : WorkerNode) (ws : Map WorkerNode)
    → IsLeast (least_loaded (id, w) ws) ((id, w) ∷ ws)
unfolding least_loaded
least_loaded-IsLeast id w [] = record {
  node = w;
  member = Memᴰ.head refl;
  least = (omega arith, tt);
}
least_loaded-IsLeast id w ((j, v) ∷ ws) = elim (Bool-cases (ltb_ℤ v.current_load w.current_load)) [
  | inl lower ↦
      let ih = least_loaded-IsLeast j v ws in
      rw lower (record {
        node = ih.node;
        member = Memᴰ.tail ih.member;
        least = (ground (arith, ih.least.0), ih.least);
      })
  | inr not_lower ↦
      let ih = least_loaded-IsLeast id w ws in
      rw not_lower (record {
        node = ih.node;
        member = skip ih.member;
        least = (ih.least.0, (ground (arith, ih.least.0), ih.least.1));
      })
]
  where
    skip : {e : Entry} → Memᴰ e ((id, w) ∷ ws) → Memᴰ e ((id, w) ∷ (j, v) ∷ ws)
    skip (Memᴰ.head p) = Memᴰ.head p
    skip (Memᴰ.tail m) = Memᴰ.tail (Memᴰ.tail m)

-- Round robin, by the index.
pub round_robin_pick-mem :
    (x : Text) (xs : List Text) (index : ℕ) → Memᴰ (round_robin_pick (x ∷ xs) index).0 (x ∷ xs)
unfolding round_robin_pick
round_robin_pick-mem x xs index = get_or-mem (x ∷ xs) (index % length (x ∷ xs)) [] (grind arith)

-- What std::sort promises of the comparison by hash: a rearrangement in rising order.
abbrev pub Rising : List Circle → Type 0
Rising [] = Unit
Rising (c ∷ cs) = All (λ d. c.0 ≤ d.0) cs × Rising cs

pub record Sorting (sort : List Circle → List Circle) : Type 0 where
  pub rearranges : (cs : List Circle) → Permᴰ (sort cs) cs
  pub rising : (cs : List Circle) → Rising (sort cs)

-- The choice on the ring: the smallest hash from h on, or, if there is none, the smallest of all.
pub record IsNext (h : ℕ) (id : Text) (cs : List Circle) : Type 0 where
  pub point : ℕ
  pub member : Memᴰ (point, id) cs
  pub closest :
      ((h ≤ point) × All (λ (d : Circle). h ≤ d.0 → point ≤ d.0) cs)
      ⊎ (All (λ (d : Circle). d.0 < h) cs × All (λ (d : Circle). point ≤ d.0) cs)

Memᴰ-Permᴰ {ℓ} : {A : Type ℓ} {a : A} {xs ys : List A} → Permᴰ xs ys → Memᴰ a xs → Memᴰ a ys
Memᴰ-Permᴰ Permᴰ.nil m = elim m [ ]
Memᴰ-Permᴰ (Permᴰ.cons e p) (Memᴰ.head q) = Memᴰ.head (q ∙ e)
Memᴰ-Permᴰ (Permᴰ.cons e p) (Memᴰ.tail m) = Memᴰ.tail (Memᴰ-Permᴰ p m)
Memᴰ-Permᴰ (Permᴰ.swap e f) (Memᴰ.head q) = Memᴰ.tail (Memᴰ.head (q ∙ e))
Memᴰ-Permᴰ (Permᴰ.swap e f) (Memᴰ.tail (Memᴰ.head q)) = Memᴰ.head (q ∙ f)
Memᴰ-Permᴰ (Permᴰ.swap e f) (Memᴰ.tail (Memᴰ.tail m)) = Memᴰ.tail (Memᴰ.tail m)
Memᴰ-Permᴰ (Permᴰ.trans p q) m = Memᴰ-Permᴰ q (Memᴰ-Permᴰ p m)

All-Permᴰ {ℓ κ} : {A : Type ℓ} (P : A → Type κ) {xs ys : List A} → Permᴰ xs ys → All P xs → All P ys
All-Permᴰ P Permᴰ.nil h = tt
All-Permᴰ P (Permᴰ.cons e p) h = (subst P e h.0, All-Permᴰ P p h.1)
All-Permᴰ P (Permᴰ.swap e f) h = (subst P f h.1.0, (subst P e h.0, h.1.1))
All-Permᴰ P (Permᴰ.trans p q) h = All-Permᴰ P q (All-Permᴰ P p h)

symm {ℓ} : {A : Type ℓ} {xs ys : List A} → Permᴰ xs ys → Permᴰ ys xs
symm Permᴰ.nil = Permᴰ.nil
symm (Permᴰ.cons e p) = Permᴰ.cons (sym e) (symm p)
symm (Permᴰ.swap e f) = Permᴰ.swap (sym f) (sym e)
symm (Permᴰ.trans p q) = Permᴰ.trans (symm q) (symm p)

-- What the loop over the sorted circles finds.
abbrev Found : ℕ → List Circle → Option Text → Type 0
Found h cs none = All (λ (d : Circle). d.0 < h) cs
Found h cs (some id) =
    (k : ℕ) × Memᴰ (k, id) cs × (h ≤ k) × All (λ (d : Circle). h ≤ d.0 → k ≤ d.0) cs

first_from-Found : (h : ℕ) (cs : List Circle) → Rising cs → Found h cs (first_from h cs)
unfolding first_from
first_from-Found h [] r = tt
first_from-Found h ((k, id) ∷ cs) r = elim (Bool-cases (leb h k)) [
  | inl hit ↦
      rw hit (k, Memᴰ.head refl, ground arith, (λ p. omega arith, All-map _ _ cs (λ d p q. p) r.0))
  | inr miss ↦ rw miss (later (first_from h cs) (first_from-Found h cs r.1) (ground arith))
]
  where
    later : (o : Option Text) → Found h cs o → k < h → Found h ((k, id) ∷ cs) o
    later none f lt = (lt, f)
    later (some found) f lt = (f.0, Memᴰ.tail f.1, f.2, (λ p. absurd (omega arith), f.3))

ring_pick-IsNext :
    (h : ℕ) (c : Circle) (cs : List Circle)
    → Rising (c ∷ cs)
    → IsNext h (ring_pick h (c ∷ cs)) (c ∷ cs)
unfolding ring_pick
ring_pick-IsNext h (k, id) cs r =
    pick (first_from h ((k, id) ∷ cs)) (first_from-Found h ((k, id) ∷ cs) r)
  where
    pick :
        (o : Option Text)
        → Found h ((k, id) ∷ cs) o
        → IsNext h (elim o as (λ _. Text) [ some found ↦ found | none ↦ id ]) ((k, id) ∷ cs)
    pick none f = record {
      point = k;
      member = Memᴰ.head refl;
      closest = inr (f, (omega arith, r.0));
    }
    pick (some found) f = record { point = f.0; member = f.1; closest = inl (f.2, f.3) }

IsNext-Permᴰ :
    {h : ℕ} {id : Text} {cs ds : List Circle} → Permᴰ cs ds → IsNext h id cs → IsNext h id ds
IsNext-Permᴰ p n = record {
  point = n.point;
  member = Memᴰ-Permᴰ p n.member;
  closest = elim n.closest [
    | inl a ↦ inl (a.0, All-Permᴰ _ p a.1)
    | inr b ↦ inr (All-Permᴰ _ p b.0, All-Permᴰ _ p b.1)
  ];
}

-- The eligible workers of a load balancer.
abbrev pub candidates : Readings → LoadBalancer → Map WorkerNode
candidates r lb = eligible r lb.circuit_breakers lb.workers

IsLeast-pick :
    (ws : Map WorkerNode)
    → ((ws ≡ []) × (least_connection_pick ws ≡ [])) ⊎ IsLeast (least_connection_pick ws) ws
unfolding least_connection_pick
IsLeast-pick [] = inl (refl, refl)
IsLeast-pick ((id, w) ∷ ws) = inr (least_loaded-IsLeast id w ws)

-- If some worker is eligible, leastConnectionSelect returns the id of an eligible worker whose load
-- no eligible worker is below; if none is, the empty string.
pub least_connection_select-IsLeast :
    (r : Readings) (lb : LoadBalancer)
    → ((candidates r lb ≡ []) × ((least_connection_select r lb).0 ≡ []))
      ⊎ IsLeast (least_connection_select r lb).0 (candidates r lb)
unfolding least_connection_select
least_connection_select-IsLeast r lb =
    rw (available-eligible r lb.workers lb.circuit_breakers) (IsLeast-pick (candidates r lb))

Permᴰ-nil {ℓ} : {A : Type ℓ} {x : A} {xs : List A} → Permᴰ [] (x ∷ xs) → ⊥
Permᴰ-nil p = elim (Memᴰ-Permᴰ (symm p) (Memᴰ.head refl)) [ ]

module _ (sort : List Circle → List Circle) (laws : Sorting sort) where
  ring_pick_sorted :
      (h : ℕ) (c : Circle) (cs ds : List Circle)
      → sort (c ∷ cs) ≡ ds
      → IsNext h (ring_pick h ds) (c ∷ cs)
  ring_pick_sorted h c cs [] e =
      absurd (Permᴰ-nil (subst (λ l. Permᴰ l (c ∷ cs)) e (laws.rearranges (c ∷ cs))))
  ring_pick_sorted h c cs (d ∷ ds) e =
      IsNext-Permᴰ (subst (λ l. Permᴰ l (c ∷ cs)) e (laws.rearranges (c ∷ cs)))
        (ring_pick-IsNext h d ds (subst Rising e (laws.rising (c ∷ cs))))

  ring_pick_nil : (h : ℕ) (ds : List Circle) → sort [] ≡ ds → ring_pick h ds ≡ []
  unfolding ring_pick
  ring_pick_nil h [] e = refl
  ring_pick_nil h (d ∷ ds) e =
      absurd (Permᴰ-nil (symm (subst (λ l. Permᴰ l []) e (laws.rearranges []))))

  hash_pick :
      (h : ℕ) (ws : Map WorkerNode)
      → ((ws ≡ []) × (ring_pick h (sort (circles ws)) ≡ []))
        ⊎ IsNext h (ring_pick h (sort (circles ws))) (circles ws)
  hash_pick h [] = inl (refl, ring_pick_nil h (sort []) refl)
  hash_pick h (e ∷ ws) =
      inr (ring_pick_sorted h (hash e.0, e.0) (circles ws) (sort (circles (e ∷ ws))) refl)

  -- For a task with an id, consistentHashSelect returns the eligible worker with the smallest hash
  -- from the task's hash on, or with the smallest hash of all if every one is below the task's; if
  -- no worker is eligible, it returns the empty string.
  pub consistent_hash_select-IsNext :
      (r : Readings) (c : ℕ) (task_id : Text) (lb : LoadBalancer)
      → ((candidates r lb ≡ []) × ((consistent_hash_select sort r (c ∷ task_id) lb).0 ≡ []))
        ⊎ IsNext
            (hash (c ∷ task_id))
            (consistent_hash_select sort r (c ∷ task_id) lb).0
            (circles (candidates r lb))
  unfolding consistent_hash_select
  consistent_hash_select-IsNext r c task_id lb =
      rw (available-eligible r lb.workers lb.circuit_breakers)
        (hash_pick (hash (c ∷ task_id)) (candidates r lb))
