-- ===== src/Redis/Claims.antt =====
-- What the loop of getConnection of common/redis_client.cpp does to who holds a connection.
use my_taskflow_system.Common.{
  ℕ, suc, ◌<◌, ◌==◌, ◌≡◌, ◌≢◌, refl, sym, ◌∙◌, ◌⊎◌, inl, inr, Bool, true, false, none, some, List,
  [], ◌∷◌, length, All, arith, if-cases, if◌then◌else◌,
}
use my_taskflow_system.Redis.Client.{RedisClient, Connection, connect}
use my_taskflow_system.Redis.Pool.{skip, Shared, RedisPool, Claim, claim}

-- The object is in the pool and marked as handed out.
abbrev pub held : ℕ → List Shared → List Bool → Bool
held q [] us = false
held q (s ∷ ss) [] = false
held q (s ∷ ss) (u ∷ us) = if s.pointer == q then u else held q ss us

-- The vectors go together, and the pointers are distinct and allocated.
abbrev pub Distinct : ℕ → List Shared → Type 0
Distinct n [] = Unit {0}
Distinct n (s ∷ ss) =
    (s.pointer < n) × All (λ (t : Shared). s.pointer ≢ t.pointer) ss × Distinct n ss

pub record IsValid (p : RedisPool) : Type 0 where
  pub same_length : length p.pool ≡ length p.in_use
  pub distinct : Distinct p.next_pointer p.pool

-- Some object of the list is the one that is pointed to.
abbrev pub PointsInto : ℕ → List Shared → Type 0
PointsInto q [] = ⊥
PointsInto q (s ∷ ss) = (s.pointer ≡ q) ⊎ PointsInto q ss

-- What a claim leaves, for every pointer.
abbrev pub Claimed : ℕ → List Shared → List Bool → Claim → Type 0
Claimed q ss us (none, ss', us') = held q ss' us' ≡ held q ss us
Claimed q ss us (some s, ss', us') =
    (held q ss' us' ≡ (if s.pointer == q then true else held q ss us))
    × (held s.pointer ss us ≡ false)
    × (s.client.connected ≡ true)
    × PointsInto s.pointer ss

abbrev pub SamePointers : List Shared → List Shared → Type 0
SamePointers [] [] = Unit {0}
SamePointers [] (t ∷ ts) = ⊥
SamePointers (s ∷ ss) [] = ⊥
SamePointers (s ∷ ss) (t ∷ ts) = (s.pointer ≡ t.pointer) × SamePointers ss ts

SamePointers-refl : (ss : List Shared) → SamePointers ss ss
SamePointers-refl [] = tt
SamePointers-refl (s ∷ ss) = (refl, SamePointers-refl ss)

pub claim-SamePointers :
    (a : ℕ → Connection) (i : ℕ) (ss : List Shared) (us : List Bool)
    → SamePointers (claim a i ss us).1 ss × (length (claim a i ss us).2 ≡ length us)
unfolding claim
claim-SamePointers a i [] us = (tt, refl)
claim-SamePointers a i (s ∷ ss) [] = (SamePointers-refl (s ∷ ss), refl)
claim-SamePointers a i (s ∷ ss) (u ∷ us) =
    ground (arith, claim-SamePointers a (suc i) ss us, SamePointers-refl ss)

pub connected-connect :
    (a : Connection) (c : RedisClient) → (connect a c).0 ≡ true → (connect a c).1.connected ≡ true
unfolding connect
connected-connect Connection.established c h = ground arith
connected-connect Connection.failed c h = ground arith
connected-connect Connection.no_context c h = ground arith

pub others_held :
    (q : ℕ) (ss : List Shared) (us : List Bool)
    → All (λ (t : Shared). q ≢ t.pointer) ss
    → held q ss us ≡ false
others_held q [] us h = refl
others_held q (s ∷ ss) [] h = refl
others_held q (s ∷ ss) (u ∷ us) h =
    ground (arith, others_held q ss us h.1, λ (e : q ≡ s.pointer). h.0 e)

pub distinct_of :
    (q r : ℕ) (ss : List Shared) → All (λ (t : Shared). q ≢ t.pointer) ss → PointsInto r ss → q ≢ r
distinct_of q r [] d m = absurd m
distinct_of q r (s ∷ ss) d (inl e) = λ f. d.0 (f ∙ sym e)
distinct_of q r (s ∷ ss) d (inr m) = distinct_of q r ss d.1 m

-- What a skipped entry adds.
skip-Claimed :
    (q : ℕ) (s s' : Shared) (ss : List Shared) (u : Bool) (us : List Bool) (r : Claim)
    → s'.pointer ≡ s.pointer
    → All (λ (t : Shared). s.pointer ≢ t.pointer) ss
    → Claimed q ss us r
    → Claimed q (s ∷ ss) (u ∷ us) (skip s' u r)
skip-Claimed q s s' ss u us (none, ss', us') e d c = ground arith
skip-Claimed q s s' ss u us (some t, ss', us') e d c =
    let far = distinct_of s.pointer t.pointer ss d c.3 in
    (ground (arith, far), ground (arith, far), c.2, inr c.3)

take_Claimed :
    (q : ℕ) (s s' : Shared) (ss : List Shared) (us : List Bool)
    → s'.pointer ≡ s.pointer
    → s'.client.connected ≡ true
    → Claimed q (s ∷ ss) (false ∷ us) (some s', s' ∷ ss, true ∷ us)
take_Claimed q s s' ss us e h = (ground arith, ground arith, h, inl (sym e))

pub claim-Claimed :
    (a : ℕ → Connection) (i n q : ℕ) (ss : List Shared) (us : List Bool)
    → Distinct n ss
    → Claimed q ss us (claim a i ss us)
unfolding claim
claim-Claimed a i n q [] us d = refl
claim-Claimed a i n q (s ∷ ss) [] d = refl
claim-Claimed a i n q (s ∷ ss) (true ∷ us) d =
    skip-Claimed q s s ss true us _ refl d.1 (claim-Claimed a (suc i) n q ss us d.2)
claim-Claimed a i n q (s ∷ ss) (false ∷ us) d =
    let tried = record s { client = (connect (a i) s.client).1 } in
    if-cases (Claimed q (s ∷ ss) (false ∷ us)) s.client.connected
      (λ up. take_Claimed q s s ss us refl up)
      λ down.
        if-cases (Claimed q (s ∷ ss) (false ∷ us)) (connect (a i) s.client).0
          (λ opened. take_Claimed q s tried ss us refl (connected-connect (a i) s.client opened))
          λ failed.
            skip-Claimed q s tried ss false us _ refl d.1 (claim-Claimed a (suc i) n q ss us d.2)
