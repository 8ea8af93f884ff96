-- ===== src/Snowflake/Generator.antt =====
-- The ids of one generator and of several: their fields, their order, and the end of the wait.
use my_taskflow_system.Common.{
  ℕ, ◌+◌, ◌-◌, ◌*◌, ◌%◌, ◌^◌, ◌≤◌, ◌<◌, ◌≡◌, refl, ◌∙◌, ◌⊎◌, inl, inr, Bool-cases, Option, none,
  some, List, [], ◌∷◌, All, arith, ◌==◌,
}
use Prim.Native.Nat.{bit_or, bit_and}
use my_taskflow_system.Common.Int.{ℤ, pos, negsuc, pos_part, ◌≤ℤ◌, ◌<ℤ◌}
use my_taskflow_system.Common.Bits.{bit_and-mask12, bit_or-fields}
use my_taskflow_system.Snowflake.{
  Snowflake, id, clock_moved_backwards, twepoch, compose, wait_next_millis, next_id, finish,
  same_millis,
}

-- The last millisecond whose offset from kTwepoch fits in 41 bits, plus 1.
abbrev pub horizon : ℕ
horizon = 1609459200000 + 2 ^ 41

-- The fields fit, and the last timestamp is not past the horizon.
pub record IsValid (s : Snowflake) : Type 0 where
  pub worker_fits : s.worker_id < 32
  pub datacenter_fits : s.datacenter_id < 32
  pub sequence_fits : s.sequence < 4096
  pub last_fits : s.last_timestamp <ℤ pos horizon
  pub last_epoch : (s.last_timestamp ≡ negsuc 0) ⊎ (pos twepoch ≤ℤ s.last_timestamp)

-- A clock between kTwepoch and the horizon.
abbrev pub InRange : ℕ → Type 0
InRange t = (twepoch ≤ t) × (t < horizon)

-- The id as the sum of its fields.
abbrev pub packed : ℕ → Snowflake → ℕ
packed t s = (t - twepoch) * 4194304 + s.datacenter_id * 131072 + s.worker_id * 4096 + s.sequence

fields :
    (t d w q : ℕ)
    → w < 32
    → d < 32
    → q < 4096
    → bit_or (bit_or (bit_or (t * 4194304) (d * 131072)) (w * 4096)) q
      ≡ t * 4194304 + d * 131072 + w * 4096 + q
fields t d w q hw hd hq =
    let top : bit_or (t * 4194304) (d * 131072) ≡ (t * 32 + d) * 131072 =
      bit_or-fields 22 t (d * 131072) (omega arith) ∙ omega arith in
    let mid : bit_or ((t * 32 + d) * 131072) (w * 4096) ≡ ((t * 32 + d) * 32 + w) * 4096 =
      bit_or-fields 17 (t * 32 + d) (w * 4096) (omega arith) ∙ omega arith in
    rw (top, mid) (bit_or-fields 12 ((t * 32 + d) * 32 + w) q (omega arith) ∙ omega arith)

pub compose-packed : (t : ℕ) (s : Snowflake) → IsValid s → InRange t → compose t s ≡ packed t s
unfolding compose
compose-packed t s v h =
    let a : (t + 2 ^ 64 - twepoch) % 2 ^ 64 * 2 ^ 22 % 2 ^ 64 ≡ (t - twepoch) * 4194304 =
      omega arith in
    let b : s.datacenter_id * 2 ^ 17 % 2 ^ 64 ≡ s.datacenter_id * 131072 = omega arith in
    let c : s.worker_id * 2 ^ 12 % 2 ^ 64 ≡ s.worker_id * 4096 = omega arith in
    rw (a, b, c)
      (fields (t - twepoch) s.datacenter_id s.worker_id s.sequence v.worker_fits v.datacenter_fits
        v.sequence_fits)

-- What the wait returns is past the last timestamp, and is the timestamp that it began with or one
-- of the readings.
pub wait_after :
    (last : ℤ) (t : ℕ) (readings : List ℕ) (u : ℕ) (rest : List ℕ)
    → wait_next_millis last t readings ≡ some (u, rest)
    → InRange t
    → All InRange readings
    → (last <ℤ pos u) × InRange u × All InRange rest
unfolding wait_next_millis
wait_after last t [] u rest e h hs = ground arith
wait_after last t (r ∷ readings) u rest e h hs = ground (arith, wait_after last r readings u rest)

-- What an id tells of the generator before and after the call that returned it.
pub record Issued (s s' : Snowflake) (n : ℕ) (rest : List ℕ) : Type 0 where
  pub valid : IsValid s'
  pub same_worker : s'.worker_id ≡ s.worker_id
  pub same_datacenter : s'.datacenter_id ≡ s.datacenter_id
  pub stamped : s'.last_timestamp ≡ pos (pos_part s'.last_timestamp)
  pub epoch : twepoch ≤ pos_part s'.last_timestamp
  pub value : n ≡ packed (pos_part s'.last_timestamp) s'
  pub later :
      (s.last_timestamp <ℤ s'.last_timestamp)
      ⊎ ((s.last_timestamp ≡ s'.last_timestamp) × (s.sequence + 1 ≡ s'.sequence))
  pub rest_in_range : All InRange rest

finish-Issued :
    (s b s' : Snowflake) (t n : ℕ) (readings rest : List ℕ)
    → IsValid s
    → b.worker_id ≡ s.worker_id
    → b.datacenter_id ≡ s.datacenter_id
    → b.sequence < 4096
    → InRange t
    → All InRange readings
    → (s.last_timestamp <ℤ pos t) ⊎ ((s.last_timestamp ≡ pos t) × (s.sequence + 1 ≡ b.sequence))
    → finish t readings b ≡ (id n, s', rest)
    → Issued s s' n rest
unfolding finish
finish-Issued s b s' t n readings rest v w d q h hs l e =
    let done = record b { last_timestamp = pos t } in
    let ok : IsValid done = ground arith in ground (arith, compose-packed t done ok h)

abbrev bumped : Snowflake → Snowflake
bumped s = record s { sequence = bit_and (s.sequence + 1) 4095 }

next_millis-Issued :
    (s s' : Snowflake) (t n : ℕ) (readings rest : List ℕ) (o : Option (ℕ × List ℕ))
    → IsValid s
    → InRange t
    → All InRange readings
    → (bumped s).sequence ≡ 0
    → wait_next_millis s.last_timestamp t readings ≡ o
    → same_millis t readings s ≡ (id n, s', rest)
    → Issued s s' n rest
unfolding same_millis
next_millis-Issued s s' t n readings rest none v h hs z w e = absurd (ground arith)
next_millis-Issued s s' t n readings rest (some (u, left)) v h hs z w e =
    let after = wait_after s.last_timestamp t readings u left w h hs in
    finish-Issued s (bumped s) s' u n left rest v refl refl (omega arith) after.1 after.2
      (inl after.0) (ground arith)

same_millis-Issued :
    (s s' : Snowflake) (t n : ℕ) (readings rest : List ℕ)
    → IsValid s
    → InRange t
    → All InRange readings
    → s.last_timestamp ≡ pos t
    → same_millis t readings s ≡ (id n, s', rest)
    → Issued s s' n rest
unfolding same_millis
same_millis-Issued s s' t n readings rest v h hs l e =
    let mask = bit_and-mask12 (s.sequence + 1) in
    elim (Bool-cases ((bumped s).sequence == 0)) [
      | inl z ↦ next_millis-Issued s s' t n readings rest _ v h hs (ground arith) refl e
      | inr nz ↦
          finish-Issued s (bumped s) s' t n readings rest v refl refl (omega (arith, mask)) h hs
            (inr (l, ground (arith, mask))) (ground arith)
    ]

-- From a valid generator and a clock in range, a call that returns an id leaves the generator
-- valid with its worker and datacenter, and the id is composed of the timestamp and the sequence
-- number that it leaves; that pair is past the one before the call.
pub next_id-Issued :
    (s s' : Snowflake) (readings rest : List ℕ) (n : ℕ)
    → IsValid s
    → All InRange readings
    → next_id readings s ≡ (id n, s', rest)
    → Issued s s' n rest
unfolding next_id
next_id-Issued s s' [] rest n v hs e = absurd (ground arith)
next_id-Issued s s' (t ∷ readings) rest n v hs e = ground (
  arith,
  same_millis-Issued s s' t n readings rest v hs.0 hs.1,
  finish-Issued s (record s { sequence = 0 }) s' t n readings rest v refl refl (omega arith) hs.0
      hs.1,
)

-- Whatever the clock gives, a call that throws leaves the generator as it was, and it throws only
-- at a reading below the last timestamp.
pub next_id_throws :
    (s s' : Snowflake) (t : ℕ) (readings rest : List ℕ)
    → next_id (t ∷ readings) s ≡ (clock_moved_backwards, s', rest)
    → (s' ≡ s) × (pos t <ℤ s.last_timestamp)
unfolding next_id
next_id_throws s s' t readings rest e = ground arith
