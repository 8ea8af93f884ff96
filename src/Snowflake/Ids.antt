-- ===== src/Snowflake/Ids.antt =====
-- The sequence of ids that a generator gives out, and the end of its wait.
use my_taskflow_system.Common.{
  ℕ, zero, suc, ◌+◌, ◌/◌, ◌%◌, ◌≤◌, ◌≡◌, refl, sym, subst, ◌≢◌, inl, inr, true, Bool-cases, some,
  List, [], ◌∷◌, ◌++◌, All, arith,
}
use my_taskflow_system.Common.Int.{ℤ, pos, negsuc, ◌≤ℤ◌, ◌<ℤ◌, leb_ℤ}
use my_taskflow_system.Snowflake.{
  Snowflake, Outcome, id, clock_moved_backwards, waiting, wait_next_millis, next_id,
}
use my_taskflow_system.Snowflake.Generator.{InRange, IsValid, packed, Issued, next_id-Issued}

-- The lower bound of the ids to come.
abbrev low : ℤ → Snowflake → ℕ
low (pos t) s = packed t s + 1
low (negsuc n) s = 0

-- Numbers that rise along the list, from `lo` on.
abbrev pub IsAscending : ℕ → List ℕ → Type 0
IsAscending lo [] = Unit {0}
IsAscending lo (x ∷ xs) = (lo ≤ x) × IsAscending (suc x) xs

abbrev collect : (List ℕ → Snowflake → List ℕ) → Outcome × Snowflake × List ℕ → List ℕ
collect next (id n, s, readings) = n ∷ next readings s
collect next (clock_moved_backwards, s, readings) = next readings s
collect next (waiting, s, readings) = []

-- The ids that a number of calls return, one call after another, until a call waits for ever.
unfoldable pub ids : ℕ → List ℕ → Snowflake → List ℕ
ids zero readings s = []
ids (suc calls) readings s = collect (ids calls) (next_id readings s)

low_past :
    (s s' : Snowflake) (n : ℕ) (rest : List ℕ)
    → IsValid s
    → Issued s s' n rest
    → (low s.last_timestamp s ≤ n) × (low s'.last_timestamp s' ≡ suc n)
low_past s s' n rest v i = ground arith

IsAscending-mono : {lo hi : ℕ} (xs : List ℕ) → lo ≤ hi → IsAscending hi xs → IsAscending lo xs
IsAscending-mono [] h a = tt
IsAscending-mono (x ∷ xs) h a = (omega arith, a.1)

next_id_backwards :
    (s s' : Snowflake) (readings rest : List ℕ)
    → All InRange readings
    → next_id readings s ≡ (clock_moved_backwards, s', rest)
    → (s' ≡ s) × All InRange rest
unfolding next_id
next_id_backwards s s' [] rest hs e = absurd (ground arith)
next_id_backwards s s' (t ∷ readings) rest hs e = ground arith

-- From a valid generator and a clock in range, the ids that any number of calls return rise from
-- call to call, so no two are equal; calls that throw in between do not matter.
pub ids-IsAscending :
    (calls : ℕ) (s : Snowflake) (readings : List ℕ)
    → IsValid s
    → All InRange readings
    → IsAscending (low s.last_timestamp s) (ids calls readings s)
unfolding ids
ids-IsAscending zero s readings v hs = tt
ids-IsAscending (suc calls) s readings v hs =
    after (ids-IsAscending calls) (next_id readings s) refl
  where
    after :
        ((u : Snowflake) (rs : List ℕ)
          → IsValid u
          → All InRange rs
          → IsAscending (low u.last_timestamp u) (ids calls rs u))
        → (r : Outcome × Snowflake × List ℕ) → next_id readings s ≡ r
        → IsAscending (low s.last_timestamp s) (collect (ids calls) r)
    after ih (id n, s', rest) e =
        let i = next_id-Issued s s' readings rest n v hs e in
        let l = low_past s s' n rest v i in (l.0, rw l.1 at (ih s' rest i.valid i.rest_in_range))
    after ih (clock_moved_backwards, s', rest) e =
        let b = next_id_backwards s s' readings rest hs e in
        subst (λ u. IsAscending (low s.last_timestamp s) (ids calls rest u)) (sym b.0)
          (ih s rest v b.1)
    after ih (waiting, s', rest) e = tt

-- The worker id in an id.
abbrev pub worker_of : ℕ → ℕ
worker_of n = n / 4096 % 32

Issued-worker :
    (s s' : Snowflake) (n : ℕ) (rest : List ℕ)
    → IsValid s
    → Issued s s' n rest
    → worker_of n ≡ s.worker_id
Issued-worker s s' n rest v i =
    omega
      (arith, i.value, i.same_worker, v.worker_fits, i.valid.datacenter_fits, i.valid.sequence_fits)

-- From a valid generator and a clock in range, every id that any number of calls return carries the
-- worker id of the generator, so two generators with different worker ids share no id.
pub ids-worker_of :
    (calls : ℕ) (s : Snowflake) (readings : List ℕ)
    → IsValid s
    → All InRange readings
    → All (λ n. worker_of n ≡ s.worker_id) (ids calls readings s)
unfolding ids
ids-worker_of zero s readings v hs = tt
ids-worker_of (suc calls) s readings v hs = after (ids-worker_of calls) (next_id readings s) refl
  where
    after :
        ((u : Snowflake) (rs : List ℕ)
          → IsValid u
          → All InRange rs
          → All (λ n. worker_of n ≡ u.worker_id) (ids calls rs u))
        → (r : Outcome × Snowflake × List ℕ) → next_id readings s ≡ r
        → All (λ n. worker_of n ≡ s.worker_id) (collect (ids calls) r)
    after ih (id n, s', rest) e =
        let i = next_id-Issued s s' readings rest n v hs e in
        (
          Issued-worker s s' n rest v i,
          subst (λ w. All (λ n. worker_of n ≡ w) (ids calls rest s')) i.same_worker
              (ih s' rest i.valid i.rest_in_range),
        )
    after ih (clock_moved_backwards, s', rest) e =
        let b = next_id_backwards s s' readings rest hs e in
        subst (λ u. All (λ n. worker_of n ≡ s.worker_id) (ids calls rest u)) (sym b.0)
          (ih s rest v b.1)
    after ih (waiting, s', rest) e = tt

wait_ends :
    (last : ℤ) (t later : ℕ) (before after : List ℕ)
    → last <ℤ pos later
    → (r : ℕ × List ℕ) × (wait_next_millis last t (before ++ later ∷ after) ≡ some r)
unfolding wait_next_millis
wait_ends last t later [] after h = elim (Bool-cases (leb_ℤ (pos t) last)) [
  | inl more ↦ ((later, after), last_round more after)
  | inr done ↦ ((t, later ∷ after), rw done)
]
  where
    last_round :
        leb_ℤ (pos t) last ≡ true
        → (rs : List ℕ) → wait_next_millis last t (later ∷ rs) ≡ some (later, rs)
    last_round more [] = ground arith
    last_round more (x ∷ rs) = ground arith
wait_ends last t later (u ∷ before) after h =
    let ih = wait_ends last u later before after h in
    elim (Bool-cases (leb_ℤ (pos t) last)) [
      | inl more ↦ (ih.0, rw more ih.1)
      | inr done ↦ ((t, u ∷ (before ++ later ∷ after)), rw done)
    ]

-- nextId returns an id whenever the clock has not gone back at its first reading and some later
-- reading is past the last timestamp: the wait for the next millisecond ends.
pub next_id_returns :
    (s : Snowflake) (t later : ℕ) (before after : List ℕ)
    → s.last_timestamp ≤ℤ pos t
    → s.last_timestamp <ℤ pos later
    → ((next_id (t ∷ (before ++ later ∷ after)) s).0 ≢ waiting)
      × ((next_id (t ∷ (before ++ later ∷ after)) s).0 ≢ clock_moved_backwards)
unfolding next_id
next_id_returns s t later before after h l =
    let found = wait_ends s.last_timestamp t later before after l in
    (λ e. ground (arith, found.1), λ e. ground (arith, found.1))
