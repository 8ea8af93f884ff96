-- ===== src/Redis/Usable.antt =====
-- When getConnection of common/redis_client.cpp returns a connection.
use my_taskflow_system.Common.{
  if-cases, ℕ, suc, ◌≡◌, ◌≢◌, refl, Bool, true, false, ◌||◌, ◌&&◌, not, Option, none, some, List,
  [], ◌∷◌, ◌++◌, length, All, arith,
}
use my_taskflow_system.Redis.Client.{Connection, new_client, connect}
use my_taskflow_system.Redis.Pool.{
  skip, Shared, RedisPool, Claim, claim, settle, get_connection, release, return_connection,
}
use my_taskflow_system.Redis.Claims.{
  claim-SamePointers, distinct_of, SamePointers, claim-Claimed, Claimed, IsValid, Distinct,
  connected-connect,
}
use my_taskflow_system.Redis.Leases.{below_fresh, length-same, Distinct-same}

-- Some connected client is free.
abbrev pub usable : List Shared → List Bool → Bool
usable [] us = false
usable (s ∷ ss) [] = false
usable (s ∷ ss) (u ∷ us) = let rest = usable ss us in (not u && s.client.connected) || rest

abbrev pub usable_in : RedisPool → Bool
usable_in p = usable p.pool p.in_use

abbrev pub found_any : Option Shared → Bool
found_any none = false
found_any (some _) = true

claim-usable :
    (a : ℕ → Connection) (i : ℕ) (ss : List Shared) (us : List Bool)
    → usable ss us ≡ true
    → found_any (claim a i ss us).0 ≡ true
unfolding claim
claim-usable a i [] us h = ground arith
claim-usable a i (s ∷ ss) [] h = ground arith
claim-usable a i (s ∷ ss) (u ∷ us) h = ground (arith, claim-usable a (suc i) ss us)

-- What the pool of a claimed connection looks like once it is given back.
release-usable :
    (p : ℕ) (ss : List Shared) (us : List Bool)
    → usable ss us ≡ true
    → usable ss (release p ss us) ≡ true
unfolding release
release-usable p [] us h = h
release-usable p (s ∷ ss) [] h = h
release-usable p (s ∷ ss) (u ∷ us) h = ground (arith, release-usable p ss us)

abbrev Returnable : Claim → Type 0
Returnable (none, ss, us) = Unit {0}
Returnable (some s, ss, us) = usable ss (release s.pointer ss us) ≡ true

skip-Returnable :
    (q : ℕ) (s s' : Shared) (ss : List Shared) (u : Bool) (us : List Bool) (r : Claim)
    → s'.pointer ≡ s.pointer
    → All (λ (t : Shared). s.pointer ≢ t.pointer) ss
    → Claimed q ss us r
    → Returnable r
    → Returnable (skip s' u r)
unfolding release
skip-Returnable q s s' ss u us (none, ss', us') e d c h = tt
skip-Returnable q s s' ss u us (some t, ss', us') e d c h =
    let far = distinct_of s.pointer t.pointer ss d c.3 in ground (arith, far)

claim-Returnable :
    (a : ℕ → Connection) (i n : ℕ) (ss : List Shared) (us : List Bool)
    → Distinct n ss
    → Returnable (claim a i ss us)
unfolding claim release
claim-Returnable a i n [] us d = tt
claim-Returnable a i n (s ∷ ss) [] d = tt
claim-Returnable a i n (s ∷ ss) (true ∷ us) d =
    skip-Returnable 0 s s ss true us _ refl d.1 (claim-Claimed a (suc i) n 0 ss us d.2)
      (claim-Returnable a (suc i) n ss us d.2)
claim-Returnable a i n (s ∷ ss) (false ∷ us) d =
    let tried = record s { client = (connect (a i) s.client).1 } in
    if-cases Returnable s.client.connected (λ up. ground arith)
      λ down.
        if-cases Returnable (connect (a i) s.client).0
          (λ opened. ground (arith, connected-connect (a i) s.client opened))
          λ failed.
            skip-Returnable 0 s tried ss false us _ refl d.1 (claim-Claimed a (suc i) n 0 ss us d.2)
              (claim-Returnable a (suc i) n ss us d.2)

-- A new object at the end, given back.
usable-append :
    (s : Shared) (ss : List Shared) (us : List Bool)
    → length ss ≡ length us
    → s.client.connected ≡ true
    → All (λ (t : Shared). s.pointer ≢ t.pointer) ss
    → usable (ss ++ s ∷ []) (release s.pointer (ss ++ s ∷ []) (us ++ true ∷ [])) ≡ true
unfolding release
usable-append s [] [] l up d = ground arith
usable-append s [] (v ∷ us) l up d = absurd (omega arith)
usable-append s (t ∷ ss) [] l up d = absurd (omega arith)
usable-append s (t ∷ ss) (v ∷ us) l up d =
    let far = d.0 in ground (arith, usable-append s ss us (omega arith) up d.1)

-- A connection that getConnection has returned can be had again once it is given back.
settle-usable :
    (a : Connection) (p : RedisPool) (r : Claim) (c : Shared)
    → IsValid p
    → SamePointers r.1 p.pool
    → length r.2 ≡ length p.in_use
    → Returnable r
    → (settle a p r).0 ≡ some c
    → usable_in (return_connection c.pointer (settle a p r).1) ≡ true
unfolding settle return_connection
settle-usable a p (some s, ss, us) c v m l h e = ground arith
settle-usable a p (none, ss, us) c v m l h e =
    let made : Shared = record {
      pointer = p.next_pointer;
      client = (connect a (new_client p.host p.port)).1;
    } in
    let d = Distinct-same p.next_pointer p.pool ss m v.distinct in
    let lens : length ss ≡ length us = omega (arith, length-same p.pool ss m, v.same_length) in
    let fresh = below_fresh p.next_pointer ss d in
    ground (
      arith,
      λ (up : made.client.connected ≡ true). usable-append made ss us lens up fresh,
      connected-connect a (new_client p.host p.port),
    )

settle-found :
    (a : Connection) (p : RedisPool) (r : Claim)
    → found_any r.0 ≡ true
    → found_any (settle a p r).0 ≡ true
unfolding settle
settle-found a p (some s, ss, us) h = refl
settle-found a p (none, ss, us) h = absurd (ground arith)

-- getConnection returns a connection if some connected client is free.
pub get_connection-found :
    (a : ℕ → Connection) (p : RedisPool)
    → usable_in p ≡ true
    → found_any (get_connection a p).0 ≡ true
unfolding get_connection
get_connection-found a p h =
    settle-found (a (length p.pool)) p (claim a 0 p.pool p.in_use)
      (claim-usable a 0 p.pool p.in_use h)

-- After getConnection has returned a connection and returnConnection has taken it back, some
-- connected client is free.
pub get_connection-usable :
    (a : ℕ → Connection) (p : RedisPool) (c : Shared)
    → IsValid p
    → (get_connection a p).0 ≡ some c
    → usable_in (return_connection c.pointer (get_connection a p).1) ≡ true
unfolding get_connection
get_connection-usable a p c v e =
    let same = claim-SamePointers a 0 p.pool p.in_use in
    settle-usable (a (length p.pool)) p (claim a 0 p.pool p.in_use) c v same.0 same.1
      (claim-Returnable a 0 p.next_pointer p.pool p.in_use v.distinct) e

any_found :
    {A : Type 0} (r : Option Shared × A) → found_any r.0 ≡ true → (c : Shared) × (r ≡ (some c, r.1))
any_found (none, a) h = absurd (ground arith)
any_found (some c, a) h = (c, refl)

pub get_connection-some :
    (a : ℕ → Connection) (p : RedisPool)
    → usable_in p ≡ true
    → (c : Shared) × (get_connection a p ≡ (some c, (get_connection a p).1))
get_connection-some a p h = any_found (get_connection a p) (get_connection-found a p h)
