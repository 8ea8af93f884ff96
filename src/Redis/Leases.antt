-- ===== src/Redis/Leases.antt =====
-- Who holds a connection of the pool.
use my_taskflow_system.Common.{
  ℕ, suc, ◌≤◌, ◌==◌, ◌≡◌, ◌≢◌, refl, sym, ◌∙◌, Bool, true, false, Option, none, some, List, [], ◌∷◌,
  ◌++◌, length, All, arith, if-cases, length-append, if◌then◌else◌,
}
use my_taskflow_system.Redis.Client.{Connection, new_client, connect}
use my_taskflow_system.Redis.Pool.{
  Shared, RedisPool, Claim, claim, settle, get_connection, release, return_connection,
}
use my_taskflow_system.Redis.Claims.{
  Claimed, Distinct, IsValid, SamePointers, claim-Claimed, claim-SamePointers, connected-connect,
  held, others_held,
}

pub Distinct-same :
    (n : ℕ) (ss ts : List Shared) → SamePointers ts ss → Distinct n ss → Distinct n ts
Distinct-same n [] [] m d = tt
Distinct-same n [] (t ∷ ts) m d = absurd m
Distinct-same n (s ∷ ss) [] m d = absurd m
Distinct-same n (s ∷ ss) (t ∷ ts) m d =
    (omega arith, apart ss ts m.1 d.1, Distinct-same n ss ts m.1 d.2)
  where
    apart :
        (us vs : List Shared)
        → SamePointers vs us
        → All (λ (x : Shared). s.pointer ≢ x.pointer) us
        → All (λ (x : Shared). t.pointer ≢ x.pointer) vs
    apart [] [] k h = tt
    apart [] (v ∷ vs) k h = absurd k
    apart (u ∷ us) [] k h = absurd k
    apart (u ∷ us) (v ∷ vs) k h = (λ e. h.0 (sym m.0 ∙ e ∙ k.0), apart us vs k.1 h.1)

pub length-same : (ss ts : List Shared) → SamePointers ts ss → length ts ≡ length ss
length-same [] [] m = refl
length-same [] (t ∷ ts) m = absurd m
length-same (s ∷ ss) [] m = absurd m
length-same (s ∷ ss) (t ∷ ts) m = omega (arith, length-same ss ts m.1)

pub below_fresh :
    (n : ℕ) (ss : List Shared) → Distinct n ss → All (λ (t : Shared). n ≢ t.pointer) ss
below_fresh n [] d = tt
below_fresh n (s ∷ ss) d = (λ e. omega arith, below_fresh n ss d.2)

-- A new object at the end of the vectors.
held-append :
    (q : ℕ) (s : Shared) (u : Bool) (ss : List Shared) (us : List Bool)
    → length ss ≡ length us
    → All (λ (t : Shared). s.pointer ≢ t.pointer) ss
    → held q (ss ++ s ∷ []) (us ++ u ∷ []) ≡ (if s.pointer == q then u else held q ss us)
held-append q s u [] [] l d = refl
held-append q s u [] (v ∷ us) l d = absurd (omega arith)
held-append q s u (t ∷ ss) [] l d = absurd (omega arith)
held-append q s u (t ∷ ss) (v ∷ us) l d =
    let far = d.0 in ground (arith, held-append q s u ss us (omega arith) d.1)

Distinct-append :
    (n : ℕ) (s : Shared) (ss : List Shared)
    → s.pointer ≡ n
    → Distinct n ss
    → Distinct (suc n) (ss ++ s ∷ [])
Distinct-append n s [] e d = (omega arith, tt, tt)
Distinct-append n s (t ∷ ss) e d = (omega arith, last_apart ss d.1, Distinct-append n s ss e d.2)
  where
    last_apart :
        (ts : List Shared)
        → All (λ (x : Shared). t.pointer ≢ x.pointer) ts
        → All (λ (x : Shared). t.pointer ≢ x.pointer) (ts ++ s ∷ [])
    last_apart [] h = (λ f. omega arith, tt)
    last_apart (x ∷ ts) h = (h.0, last_apart ts h.1)

-- The pool after getConnection, seen from every pointer: the connection that is returned was not
-- handed out before and is connected, it alone is handed out in addition, and the pool stays valid;
-- null is returned with nobody's connection changed.
pub record Leased (p q : RedisPool) (found : Option Shared) : Type 0 where
  pub valid : IsValid q
  pub was_free : (s : Shared) → found ≡ some s → held s.pointer p.pool p.in_use ≡ false
  pub is_connected : (s : Shared) → found ≡ some s → s.client.connected ≡ true
  pub taken :
      (s : Shared)
      → found ≡ some s
      → (r : ℕ) → held r q.pool q.in_use ≡ (if s.pointer == r then true else held r p.pool p.in_use)
  pub refused : found ≡ none → (r : ℕ) → held r q.pool q.in_use ≡ held r p.pool p.in_use

Distinct-mono : {m n : ℕ} (ss : List Shared) → m ≤ n → Distinct m ss → Distinct n ss
Distinct-mono [] h d = tt
Distinct-mono (s ∷ ss) h d = (omega arith, d.1, Distinct-mono ss h d.2)

settle-Leased :
    (a : Connection) (p : RedisPool) (r : Claim)
    → IsValid p
    → SamePointers r.1 p.pool
    → length r.2 ≡ length p.in_use
    → ((q : ℕ) → Claimed q p.pool p.in_use r)
    → Leased p (settle a p r).1 (settle a p r).0
unfolding settle
settle-Leased a p (some s, ss, us) v m l c = record {
  valid = record {
    same_length = omega (arith, length-same p.pool ss m, v.same_length);
    distinct = Distinct-same p.next_pointer p.pool ss m v.distinct;
  };
  was_free = λ t e. ground (arith, c 0);
  is_connected = λ t e. ground (arith, c 0);
  taken = λ t e r. ground (arith, c r);
  refused = λ e. cc;
}
settle-Leased a p (none, ss, us) v m l c =
    let made : Shared = record {
      pointer = p.next_pointer;
      client = (connect a (new_client p.host p.port)).1;
    } in
    let d = Distinct-same p.next_pointer p.pool ss m v.distinct in
    let lens : length ss ≡ length us = omega (arith, length-same p.pool ss m, v.same_length) in
    let fresh = below_fresh p.next_pointer ss d in
    if-cases (λ (x : Option Shared × RedisPool). Leased p x.1 x.0)
      (connect a (new_client p.host p.port)).0
      (λ opened. record {
        valid = record {
          same_length = omega (arith, length-append ss (made ∷ []), length-append us (true ∷ []));
          distinct = Distinct-append p.next_pointer made ss refl d;
        };
        was_free = λ t e. ground (arith, c p.next_pointer, others_held p.next_pointer ss us fresh);
        is_connected = λ t e. ground (arith, connected-connect a (new_client p.host p.port) opened);
        taken = λ t e r. ground (arith, c r, held-append r made true ss us lens fresh);
        refused = λ e. absurd (ground arith);
      })
      λ failed. record {
        valid = record {
          same_length = lens;
          distinct = Distinct-mono {m = p.next_pointer} ss (omega arith) d;
        };
        was_free = λ t e. absurd (ground arith);
        is_connected = λ t e. absurd (ground arith);
        taken = λ t e r. absurd (ground arith);
        refused = λ e r. c r;
      }

-- From a valid pool, getConnection returns a connected client that nobody held, and takes it and
-- nothing else out of the pool; if it returns null, nobody's connection has changed. The pool stays
-- valid.
pub get_connection-Leased :
    (a : ℕ → Connection) (p : RedisPool)
    → IsValid p
    → Leased p (get_connection a p).1 (get_connection a p).0
unfolding get_connection
get_connection-Leased a p v =
    let same = claim-SamePointers a 0 p.pool p.in_use in
    settle-Leased (a (length p.pool)) p (claim a 0 p.pool p.in_use) v same.0 same.1
      λ q. claim-Claimed a 0 p.next_pointer q p.pool p.in_use v.distinct

held-release :
    (n q r : ℕ) (ss : List Shared) (us : List Bool)
    → Distinct n ss
    → held r ss (release q ss us) ≡ (if q == r then false else held r ss us)
unfolding release
held-release n q r [] us d = ground arith
held-release n q r (s ∷ ss) [] d = ground arith
held-release n q r (s ∷ ss) (u ∷ us) d =
    ground (arith, held-release n q r ss us d.2, others_held s.pointer ss us d.1)

length-release :
    (q : ℕ) (ss : List Shared) (us : List Bool)
    → length ss ≡ length us
    → length (release q ss us) ≡ length us
unfolding release
length-release q [] us l = refl
length-release q (s ∷ ss) [] l = absurd (omega arith)
length-release q (s ∷ ss) (u ∷ us) l = ground (arith, length-release q ss us)

-- From a valid pool, returnConnection frees the connection that it is given and no other, and the
-- pool stays valid.
pub held-return_connection :
    (q r : ℕ) (p : RedisPool)
    → IsValid p
    → IsValid (return_connection q p)
      × (held r (return_connection q p).pool (return_connection q p).in_use
          ≡ (if q == r then false else held r p.pool p.in_use))
unfolding return_connection
held-return_connection q r p v = (
  record {
    same_length = omega (arith, length-release q p.pool p.in_use v.same_length, v.same_length);
    distinct = v.distinct;
  },
  held-release p.next_pointer q r p.pool p.in_use v.distinct,
)
