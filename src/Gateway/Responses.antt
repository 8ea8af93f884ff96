-- ===== src/Gateway/Responses.antt =====
-- What the gateway answers to any request: the status of each case, and when it throws.
use my_taskflow_system.Common.{
  ◌≡◌, refl, Bool, true, false, List, Text, codes, is_empty, if-cases, Bool-cases, ◌⊎◌, inl, inr,
}
use my_taskflow_system.Common.Int.{ℤ, pos}
use my_taskflow_system.Common.Maps.{Map}
use my_taskflow_system.Common.Exec.{Exec, Error, Result-cases, Result, ok, throw}
use my_taskflow_system.Messages.{SubmitTaskReply, TaskReply, WorkerInfo}
use my_taskflow_system.Gateway.Body.{read_priority}
use my_taskflow_system.Gateway.Query.{parse_query_param}
use my_taskflow_system.Gateway.Handler.{
  Stub, Called, answered, refused, HttpRequest, HttpResponse, submit_request, handle_get_stats,
  handle_health_check, handle_get_queue_status, not_found, is_route, handle_submit_task,
  handle_get_status, handle_get_workers, runs, route, handle_request,
}
use my_taskflow_system.Gateway.Reasons.{Asks, json, is_route-Asks, is_route-other, Reason}

module _ (S : Stub) where
  open S use {State}

  -- A handler, with the Bool that handleRequest drops.
  abbrev Responds : HttpRequest → Map Text → State → Result (Bool × HttpResponse) × State → Type 0
  Responds request headers s x =
      (code : ℤ) × (body : Text) × (after : State) × (done : Bool) × Reason S request s code body
        after
      × (x ≡ (ok (done, json code body headers), after))

  abbrev Handles : HttpRequest → Map Text → Exec State (Bool × HttpResponse) → Type 0
  Handles request headers f =
      (s : State)
      → Responds request headers s (f s)
        ⊎ ((e : Error) × Asks (codes "POST") (codes "/task") request
            × (read_priority request.body ≡ throw e)
            × (f s ≡ (throw e, s)))

  submit_task-Handles :
      (request : HttpRequest) (headers : Map Text)
      → Asks (codes "POST") (codes "/task") request
      → Handles request headers (handle_submit_task S request (not_found headers))
  unfolding handle_submit_task
  submit_task-Handles request headers asks s = elim (Result-cases (read_priority request.body)) [
    | inr (x, e) ↦ inr (x, asks, e, rw e refl)
    | inl (priority, e) ↦
        inl (answer priority e (S.submit_task (submit_request request.body priority) s) refl)
  ]
    where
      answer :
          (priority : ℤ)
          → read_priority request.body ≡ ok priority
          → (called : Called SubmitTaskReply × State)
          → S.submit_task (submit_request request.body priority) s ≡ called
          → Responds request headers s (handle_submit_task S request (not_found headers) s)
      answer priority e (answered reply, after) call = elim (Bool-cases reply.success) [
        | inl good ↦ (
          pos 200,
          _,
          after,
          true,
          Reason.taken priority reply after asks e call good,
          rw (e, call, good) refl,
        )
        | inr bad ↦ (
          pos 500,
          _,
          after,
          true,
          Reason.not_taken priority reply after asks e call bad,
          rw (e, call, bad) refl,
        )
      ]
      answer priority e (refused message, after) call = (
        pos 503,
        _,
        after,
        false,
        Reason.submit_down priority message after asks e call,
        rw (e, call) refl,
      )

  get_status-Handles :
      (request : HttpRequest) (headers : Map Text)
      → Asks (codes "GET") (codes "/task") request
      → Handles request headers (runs S (handle_get_status S request (not_found headers)))
  unfolding handle_get_status
  get_status-Handles request headers asks s =
      inl (elim (Bool-cases (is_empty (parse_query_param request.path (codes "id")))) [
        | inl missing ↦ (pos 400, _, s, false, Reason.no_id asks missing, rw missing refl)
        | inr given ↦
            answer given (S.get_task_status (parse_query_param request.path (codes "id")) s) refl
      ])
    where
      answer :
          is_empty (parse_query_param request.path (codes "id")) ≡ false
          → (called : Called TaskReply × State)
          → S.get_task_status (parse_query_param request.path (codes "id")) s ≡ called
          → Responds request headers s (runs S (handle_get_status S request (not_found headers)) s)
      answer given (answered reply, after) call = elim (Bool-cases reply.success) [
        | inl good ↦ (
          pos 200,
          _,
          after,
          true,
          Reason.known reply after asks given call good,
          rw (given, call, good) refl,
        )
        | inr bad ↦ (
          pos 404,
          _,
          after,
          true,
          Reason.unknown reply after asks given call bad,
          rw (given, call, bad) refl,
        )
      ]
      answer given (refused message, after) call = (
        pos 503,
        _,
        after,
        false,
        Reason.status_down message after asks given call,
        rw (given, call) refl,
      )

  get_workers-Handles :
      (request : HttpRequest) (headers : Map Text)
      → Asks (codes "GET") (codes "/workers") request
      → Handles request headers (runs S (handle_get_workers S (not_found headers)))
  unfolding handle_get_workers
  get_workers-Handles request headers asks s = inl (answer (S.get_workers s) refl)
    where
      answer :
          (called : Called (List WorkerInfo) × State)
          → S.get_workers s ≡ called
          → Responds request headers s (runs S (handle_get_workers S (not_found headers)) s)
      answer (answered workers, after) call =
          (pos 200, _, after, true, Reason.listed workers after asks call, rw call refl)
      answer (refused message, after) call =
          (pos 503, _, after, false, Reason.workers_down message after asks call, rw call refl)

  route-Handles :
      (request : HttpRequest) (headers : Map Text)
      → Handles request headers (route S request (not_found headers))
  unfolding route handle_health_check handle_get_stats handle_get_queue_status
  route-Handles request headers =
      let way = Handles request headers in
      if-cases way (is_route (codes "GET") (codes "/health") request)
        (λ e s.
          let asks = is_route-Asks (codes "GET") (codes "/health") request e in
          inl (pos 200, _, s, true, Reason.healthy asks, refl))
        λ e1.
          if-cases way (is_route (codes "POST") (codes "/task") request)
            (λ e.
              submit_task-Handles request headers
                (is_route-Asks (codes "POST") (codes "/task") request e))
            λ e2.
              if-cases way (is_route (codes "GET") (codes "/task") request)
                (λ e.
                  get_status-Handles request headers
                    (is_route-Asks (codes "GET") (codes "/task") request e))
                λ e3.
                  if-cases way (is_route (codes "GET") (codes "/workers") request)
                    (λ e.
                      get_workers-Handles request headers
                        (is_route-Asks (codes "GET") (codes "/workers") request e))
                    λ e4.
                      if-cases way (is_route (codes "GET") (codes "/stats") request)
                        (λ e s.
                          let asks = is_route-Asks (codes "GET") (codes "/stats") request e in
                          inl (pos 200, _, s, true, Reason.stats asks, refl))
                        λ e5.
                          if-cases way (is_route (codes "GET") (codes "/queue") request)
                            (λ e s.
                              let asks = is_route-Asks (codes "GET") (codes "/queue") request e in
                              inl (pos 200, _, s, true, Reason.queue asks, refl))
                            λ e6 s.
                              let none_of =
                                Reason.no_route
                                  (is_route-other (codes "GET") (codes "/health") request e1)
                                  (is_route-other (codes "POST") (codes "/task") request e2)
                                  (is_route-other (codes "GET") (codes "/task") request e3)
                                  (is_route-other (codes "GET") (codes "/workers") request e4)
                                  (is_route-other (codes "GET") (codes "/stats") request e5)
                                  (is_route-other (codes "GET") (codes "/queue") request e6) in
                              inl (pos 404, _, s, false, none_of, refl)

  -- The answer of handleRequest: a response whose status has its reason, or an exception.
  abbrev pub IsAnswer : HttpRequest → Map Text → State → Result HttpResponse × State → Type 0
  IsAnswer request headers s x =
      ((code : ℤ) × (body : Text) × (after : State) × Reason S request s code body after
        × (x ≡ (ok (json code body headers), after)))
      ⊎ ((e : Error) × Asks (codes "POST") (codes "/task") request
          × (read_priority request.body ≡ throw e)
          × (x ≡ (throw e, s)))

  -- Every request is answered with the status for what it asks and for what the scheduler replies,
  -- and with application/json as its Content-Type besides the headers of the response: 200 for
  -- /health, /stats and /queue; for POST /task, 200 if the scheduler has taken the task, 500 if it
  -- has not, and 503 if the call fails; for GET /task, 400 without an id, 200 if the task is known,
  -- 404 if not, 503 if the call fails; for GET /workers, 200, or 503 if the call fails; and 404 for
  -- everything else. The body is the text of what the call replied, of its error message, or the
  -- fixed text of the case, which is "Not Found" for everything else. What stands behind the stub is
  -- as that one call leaves it, else as it was. The one exception is a POST /task whose body has a
  -- priority that throws: it throws the same, and what stands behind the stub is as it was.
  pub handle_request-IsAnswer :
      (request : HttpRequest) (response : HttpResponse) (s : State)
      → IsAnswer request response.headers s (handle_request S request response s)
  unfolding handle_request
  handle_request-IsAnswer request response s = elim (route-Handles request response.headers s) [
    | inl (code, body, after, done, why, e) ↦ inl (code, body, after, why, rw e refl)
    | inr (x, asks, bad, e) ↦ inr (x, asks, bad, rw e refl)
  ]
