-- ===== src/Dispatcher/Traffic.antt =====
-- Any sequence of submissions and of pops, against the three queues of the specification: no task
-- is lost and none is doubled.
use my_taskflow_system.Common.{
  ◌+◌, ◌≡◌, false, List, [], ◌∷◌, ◌++◌, Text, is_empty, All-append, arith, if◌then◌else◌,
}
use my_taskflow_system.Common.Bags.{count, count-append}
use my_taskflow_system.Common.Exec.{Result, ok, throw}
use my_taskflow_system.Redis.Server.{Server}
use my_taskflow_system.Redis.Lists.{
  Queues, Level, is_high, is_medium, is_low, level, push_at, push_spec, pop_lists, pop_spec, Fit,
}
use my_taskflow_system.Dispatcher.Model.{TaskRequest, System, Surroundings}
use my_taskflow_system.Dispatcher.Methods.{submit_task, pop_next_task}

-- One call of submitTask or of popNextTask.
pub data Traffic : Type 0 where
  submission : TaskRequest → Traffic
  pop : Traffic

-- An id that a pop has returned.
abbrev pub delivered : Text → List Text → List Text
delivered task_id rest = if is_empty task_id then rest else task_id ∷ rest

abbrev pub answered : Result Text → List Text → List Text
answered (ok task_id) rest = delivered task_id rest
answered (throw _) rest = rest

-- The ids that are submitted, and those that the pops deliver from the queues of the specification.
abbrev pub handed_in : List (Surroundings × Traffic) → List Text
handed_in [] = []
handed_in ((o, submission t) ∷ ks) = t.id ∷ handed_in ks
handed_in ((o, pop) ∷ ks) = handed_in ks

abbrev pub traffic_spec : List (Surroundings × Traffic) → Queues → List Text × Queues
traffic_spec [] q = ([], q)
traffic_spec ((o, submission t) ∷ ks) q = traffic_spec ks (push_spec t.priority t.id q)
traffic_spec ((o, pop) ∷ ks) q =
    let (task_id, q1) = pop_spec q in
    let (rest, q2) = traffic_spec ks q1 in (delivered task_id rest, q2)

-- The ids that wait, in the order in which they will be popped.
abbrev pub waiting : Queues → List Text
waiting q = q.high ++ (q.medium ++ q.low)

module _ (S : Server) where
  open S use {State}

  unfoldable pub traffic : List (Surroundings × Traffic) → System State → List Text × System State
  traffic [] s = ([], s)
  traffic ((o, submission t) ∷ ks) s = traffic ks (submit_task S o t s).1
  traffic ((o, pop) ∷ ks) s =
      let (task_id, s1) = pop_next_task S o s in
      let (rest, s2) = traffic ks s1 in (answered task_id rest, s2)

count-waiting :
    (a : Text) (q : Queues)
    → count a (waiting q) ≡ count a q.high + (count a q.medium + count a q.low)
count-waiting a q =
    omega (arith, count-append a q.high (q.medium ++ q.low), count-append a q.medium q.low)

count-push_at :
    (a x : Text) (l : Level) (q : Queues)
    → count a (waiting (push_at l x q)) ≡ count a (x ∷ []) + count a (waiting q)
count-push_at a x is_high q = omega (
  arith,
  count-append a q.high (x ∷ []),
  count-waiting a q,
  count-waiting a (push_at is_high x q),
)
count-push_at a x is_medium q = omega (
  arith,
  count-append a q.medium (x ∷ []),
  count-waiting a q,
  count-waiting a (push_at is_medium x q),
)
count-push_at a x is_low q =
    omega (
      arith,
      count-append a q.low (x ∷ []),
      count-waiting a q,
      count-waiting a (push_at is_low x q),
    )

pub Fit-push_at :
    (x : Text) (l : Level) (q : Queues) → is_empty x ≡ false → Fit q → Fit (push_at l x q)
Fit-push_at x is_high q e f = record {
  high_ids = All-append _ q.high (x ∷ []) f.high_ids (e, tt);
  medium_ids = f.medium_ids;
  low_ids = f.low_ids;
}
Fit-push_at x is_medium q e f = record {
  high_ids = f.high_ids;
  medium_ids = All-append _ q.medium (x ∷ []) f.medium_ids (e, tt);
  low_ids = f.low_ids;
}
Fit-push_at x is_low q e f = record {
  high_ids = f.high_ids;
  medium_ids = f.medium_ids;
  low_ids = All-append _ q.low (x ∷ []) f.low_ids (e, tt);
}

-- What a pop of the specification leaves.
pub Fit-pop_lists :
    (h m l : List Text) → Fit (record { high = h; medium = m; low = l }) → Fit (pop_lists h m l).1
Fit-pop_lists (x ∷ h) m l f = record {
  high_ids = f.high_ids.1;
  medium_ids = f.medium_ids;
  low_ids = f.low_ids;
}
Fit-pop_lists [] (x ∷ m) l f = record {
  high_ids = tt;
  medium_ids = f.medium_ids.1;
  low_ids = f.low_ids;
}
Fit-pop_lists [] [] (x ∷ l) f = record { high_ids = tt; medium_ids = tt; low_ids = f.low_ids.1 }
Fit-pop_lists [] [] [] f = record { high_ids = tt; medium_ids = tt; low_ids = tt }

count-pop_lists :
    (a : Text) (h m l rest : List Text)
    → Fit (record { high = h; medium = m; low = l })
    → count a (delivered (pop_lists h m l).0 rest) + count a (waiting (pop_lists h m l).1)
      ≡ count a (h ++ (m ++ l)) + count a rest
count-pop_lists a (x ∷ h) m l rest f = ground (arith, f.high_ids.0)
count-pop_lists a [] (x ∷ m) l rest f = ground (arith, f.medium_ids.0)
count-pop_lists a [] [] (x ∷ l) rest f = ground (arith, f.low_ids.0)
count-pop_lists a [] [] [] rest f = ground arith

abbrev pub Named : List (Surroundings × Traffic) → Type 0
Named [] = Unit {0}
Named ((o, submission t) ∷ ks) = (is_empty t.id ≡ false) × Named ks
Named ((o, pop) ∷ ks) = Named ks

pub traffic_spec-count :
    (a : Text) (ks : List (Surroundings × Traffic)) (q : Queues)
    → Named ks
    → Fit q
    → count a (waiting q) + count a (handed_in ks)
      ≡ count a (traffic_spec ks q).0 + count a (waiting (traffic_spec ks q).1)
traffic_spec-count a [] q n f = omega arith
traffic_spec-count a ((o, submission t) ∷ ks) q n f = omega (
  arith,
  count-push_at a t.id (level t.priority) q,
  traffic_spec-count a ks (push_spec t.priority t.id q) n.1
      (Fit-push_at t.id (level t.priority) q n.0 f),
)
traffic_spec-count a ((o, pop) ∷ ks) q n f =
    let q1 = (pop_spec q).1 in
    let rest = (traffic_spec ks q1).0 in
    omega (
      arith,
      count-pop_lists a q.high q.medium q.low rest f,
      traffic_spec-count a ks q1 n (Fit-pop_lists q.high q.medium q.low f),
    )
