-- ===== src/Worker/Load.antt =====
-- worker.cpp: the load counter of a worker whose handlers of ExecuteTask run at the same time, each
-- somewhere between its first step and its reply.
use my_taskflow_system.Common.{
  ◌^◌, ℕ, ◌+◌, ◌<◌, ◌≤◌, ◌≡◌, refl, ap, ◌∙◌, sym, List, [], ◌∷◌, ◌++◌, arith,
}
use my_taskflow_system.Common.Int.{pos}
use my_taskflow_system.Messages.{ExecuteTaskRequest}
use my_taskflow_system.Worker.{
  WorkerService, new_service, begin_task, end_task, Rolls, Attempt, finished, Stage, arrived,
  working, tried, replied, advance, execute_task, execute_task_internal,
}

pub record Handler : Type 0 where
  pub request : ExecuteTaskRequest
  pub stage : Stage

pub record Running : Type 0 where
  pub service : WorkerService
  pub handlers : List Handler

-- A request arrives, or one of the handlers takes its next step.
pub data Step : Running → Running → Type 0 where
  arrives :
      (w : WorkerService) (hs : List Handler) (request : ExecuteTaskRequest)
      → Step
          (record { service = w; handlers = hs })
          (record { service = w; handlers = record { request = request; stage = arrived } ∷ hs })
  advances :
      (w : WorkerService) (before after : List Handler) (request : ExecuteTaskRequest)
      (stage : Stage) (attempt : Attempt)
      → Step
          (record {
            service = w;
            handlers = before ++ record { request = request; stage = stage } ∷ after;
          })
          (record {
            service = (advance request attempt stage w).1;
            handlers =
                before
                ++ record { request = request; stage = (advance request attempt stage w).0 }
                  ∷ after;
          })

-- 1 for a handler that has counted itself and not uncounted itself.
abbrev pub counted : Stage → ℕ
counted arrived = 0
counted working = 1
counted (tried a) = 1
counted (replied r) = 0

abbrev pub under_way : List Handler → ℕ
under_way [] = 0
under_way (h ∷ hs) = counted h.stage + under_way hs

-- What a worker comes to when never more than `limit` tasks are under way at once.
pub data Reachable (limit : ℕ) : Running → Type 0 where
  fresh : Reachable limit (record { service = new_service; handlers = [] })
  next :
      (a b : Running)
      → Reachable limit a
      → Step a b
      → under_way b.handlers ≤ limit
      → Reachable limit b

-- The counter is the number of the tasks that are under way.
abbrev pub Counts : Running → Type 0
Counts r = r.service.current_load ≡ pos (under_way r.handlers)

under_way-append :
    (before after : List Handler) (h : Handler)
    → under_way (before ++ h ∷ after) ≡ counted h.stage + (under_way before + under_way after)
under_way-append [] after h = omega arith
under_way-append (b ∷ before) after h = omega (arith, under_way-append before after h)

-- One step changes the counter by what it changes of the handler.
advance-counted :
    (request : ExecuteTaskRequest) (attempt : Attempt) (stage : Stage) (w : WorkerService) (n : ℕ)
    → counted (advance request attempt stage w).0 + n < 2 ^ 31
    → w.current_load ≡ pos (counted stage + n)
    → (advance request attempt stage w).1.current_load
      ≡ pos (counted (advance request attempt stage w).0 + n)
unfolding advance begin_task end_task
advance-counted request attempt arrived w n h c = rw c (ground arith)
advance-counted request attempt working w n h c = c
advance-counted request attempt (tried a) w n h c = rw c (ground arith)
advance-counted request attempt (replied r) w n h c = c

Step-Counts : (a b : Running) → Step a b → under_way b.handlers < 2 ^ 31 → Counts a → Counts b
Step-Counts a b (Step.arrives w hs request) h c = ground (arith, c)
Step-Counts a b (Step.advances w before after request stage attempt) h c =
    let next = advance request attempt stage w in
    let now = under_way-append before after (record { request = request; stage = stage }) in
    let then_ = under_way-append before after (record { request = request; stage = next.0 }) in
    let n = under_way before + under_way after in
    advance-counted request attempt stage w n (omega (arith, then_)) (c ∙ ap pos now)
    ∙ ap pos (sym then_)

-- However the handlers of a worker interleave, and whether or not their tasks throw, the load
-- counter is the number of the tasks between current_load_++ and current_load_--, if they are never
-- more than 2 ^ 31 - 1 at once; so it is 0 when every handler has replied.
pub Reachable-Counts : (limit : ℕ) (r : Running) → limit < 2 ^ 31 → Reachable limit r → Counts r
Reachable-Counts limit r h Reachable.fresh = refl
Reachable-Counts limit r h (Reachable.next a b before step few) =
    Step-Counts a b step (omega arith) (Reachable-Counts limit a h before)

-- ExecuteTask without interruption is three of these steps.
pub execute_task-advance :
    (rolls : Rolls) (request : ExecuteTaskRequest) (w : WorkerService)
    → let work = execute_task_internal rolls request.type request.payload request.timeout_seconds in
      let one = advance request (finished work) arrived w in
      let two = advance request (finished work) one.0 one.1 in
      let three = advance request (finished work) two.0 two.1 in
      three ≡ (replied (execute_task rolls request w).0, (execute_task rolls request w).1)
unfolding advance execute_task
execute_task-advance rolls request w = refl
