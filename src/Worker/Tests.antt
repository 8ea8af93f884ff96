-- ===== src/Worker/Tests.antt =====
-- A worker at concrete inputs.
use my_taskflow_system.Common.{◌≡◌, refl, true, false, none, some, [], ◌∷◌, ◌++◌, codes, arith}
use my_taskflow_system.Common.Int.{pos, eq_ℤ}
use my_taskflow_system.Common.Exec.{ok}
use my_taskflow_system.Common.Decimal.{to_string}
use my_taskflow_system.Common.Search.{contains}
use my_taskflow_system.Config.Loader.{Yaml, load_worker_config}
use my_taskflow_system.Worker.Start.{configure, is_file}
use my_taskflow_system.Worker.Arguments.{configure_ignores_id}
use my_taskflow_system.Messages.{ExecuteTaskRequest}
use my_taskflow_system.Worker.{
  WorkerService, Stage, Attempt, failed, arrived, working, tried, replied, reply_of, advance, tried,
  reply_of, arrived, replied, failed, advance, working, Attempt, WorkerService, Stage, Rolls,
  new_service, begin_task, end_task, execute_task_internal,
}
use my_taskflow_system.Worker.Durations.{IsLesser, BeginsWith, execute_task_internal-IsLesser}
use my_taskflow_system.Worker.Load.{Handler, Running, Step, Reachable, Counts, Reachable-Counts}

abbrev rolls : Rolls
rolls = record { first = 41; second = 7 }

abbrev request : ExecuteTaskRequest
request = record {
  task_id = codes "t1";
  type = pos 1;
  payload = codes "{}";
  timeout_seconds = pos 3;
}

execute_task_internal-IsLesser_example :
    let work = execute_task_internal rolls (pos 1) (codes "{}") (pos 3) in
    IsLesser (pos 3) (pos 8) work.duration
    × BeginsWith (codes "Personnel scheduling completed. Personnel: ") work.output
execute_task_internal-IsLesser_example =
    execute_task_internal-IsLesser rolls (pos 1) (codes "{}") (pos 3)

abbrev handler : Stage → Handler
handler stage = record { request = request; stage = stage }

abbrev one_load : WorkerService
one_load = begin_task new_service

abbrev no : Attempt
no = failed (codes "no")

-- One task has failed and its handler has replied, and another is under way.
abbrev after_one : Running
after_one = record {
  service = end_task (begin_task one_load);
  handlers = handler working ∷ handler (replied (reply_of request.task_id no)) ∷ [];
}

run : Reachable 2 after_one
unfolding advance
run =
    Reachable.next _ _
      (Reachable.next _ _
        (Reachable.next _ _
          (Reachable.next _ _
            (Reachable.next _ _
              (Reachable.next _ _ Reachable.fresh (Step.arrives new_service [] request)
                (omega arith))
              (Step.advances new_service [] [] request arrived no) (omega arith))
            (Step.arrives one_load (handler working ∷ []) request) (omega arith))
          (Step.advances one_load (handler arrived ∷ []) [] request working no) (omega arith))
        (Step.advances one_load [] (handler (tried no) ∷ []) request arrived no) (omega arith))
      (Step.advances (begin_task one_load) (handler working ∷ []) [] request (tried no) no)
      (omega arith)

Reachable-Counts_example : Counts after_one
Reachable-Counts_example = Reachable-Counts 2 after_one (omega arith) run

-- A file whose every number is 7.
abbrev sevens : Yaml
sevens = record {
  Memory = Unit {0};
  Node = Unit {0};
  load_file = λ path m. (some tt, m);
  child = λ node key m. (some tt, m);
  assign = λ node other m. (some other, m);
  is_defined = λ node m. true;
  as_int = λ node m. some (pos 7);
  as_text = λ node m. none;
}

seven : eq_ℤ (load_worker_config sevens (codes "config/worker.yaml") tt).0.id (pos 0) ≡ false
unfolding load_worker_config
seven = refl

configure_ignores_id_example :
    configure sevens ((codes "--id=" ++ to_string (pos 2)) ∷ []) tt
    ≡ (ok (load_worker_config sevens (codes "config/worker.yaml") tt).0, tt)
configure_ignores_id_example = configure_ignores_id sevens (pos 2) tt (omega arith) seven

other_file : is_file (codes "w.yaml") ≡ true
unfolding contains
other_file = refl

other_seven : eq_ℤ (load_worker_config sevens (codes "w.yaml") tt).0.id (pos 0) ≡ false
unfolding load_worker_config
other_seven = refl
