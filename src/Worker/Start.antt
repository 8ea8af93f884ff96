-- ===== src/Worker/Start.antt =====
-- worker.cpp, main: the configuration of a worker from its arguments and its file.
use my_taskflow_system.Common.{
  Bool, not, ◌&&◌, List, [], ◌∷◌, Text, codes, is_empty, ltb, drop, length, if◌then◌else◌,
}
use my_taskflow_system.Common.Int.{ℤ, pos, eq_ℤ}
use my_taskflow_system.Common.Exec.{Exec, Result, ok, throw, out_of_range, ◌>>=◌, lift}
use my_taskflow_system.Common.Decimal.{stoi, to_string}
use my_taskflow_system.Common.Search.{starts_with, contains}
use my_taskflow_system.Etcd.Server as Etcd
use my_taskflow_system.Etcd.Registry.{ServiceRegistry, join}
use my_taskflow_system.Worker.{worker_name}
use my_taskflow_system.Config.Settings.{WorkerConfig, default_worker}
use my_taskflow_system.Config.Loader.{Yaml, load_worker_config}

-- arg.substr(10)
abbrev pub config_of : Text → Result Text
config_of arg = if ltb (length arg) 10 then throw out_of_range else ok (drop 10 arg)

abbrev pub and_then_ok : {A B : Type 0} → Result A → (A → Result B) → Result B
and_then_ok (ok a) f = f a
and_then_ok (throw e) f = throw e

-- The first loop over the arguments: the id of the configuration and config_path.
unfoldable pub read_arguments : List Text → ℤ → Text → Result (ℤ × Text)
unfolding starts_with stoi
read_arguments [] id config_path = ok (id, config_path)
read_arguments (arg ∷ args) id config_path =
    if starts_with (codes "--id=") arg
    then and_then_ok (stoi (drop 5 arg)) (λ n. read_arguments args n config_path)
    else if starts_with (codes "--config=") arg
    then and_then_ok (config_of arg) (λ path. read_arguments args id path)
    else read_arguments args id config_path

-- The second loop: the first --id= again.
unfoldable pub first_id : List Text → ℤ → Result ℤ
unfolding starts_with stoi
first_id [] id = ok id
first_id (arg ∷ args) id =
    let rest = first_id args id in
    if starts_with (codes "--id=") arg then stoi (drop 5 arg) else rest

abbrev pub one_if_zero : ℤ → ℤ
one_if_zero id = if eq_ℤ id (pos 0) then pos 1 else id

-- if (config.id == 0) ...
unfoldable pub settle_id : List Text → WorkerConfig → Result WorkerConfig
unfolding first_id
settle_id args config =
    let settled =
      and_then_ok (first_id args config.id) (λ id. ok (record config { id = one_if_zero id })) in
    if eq_ℤ config.id (pos 0) then settled else ok config

abbrev pub is_file : Text → Bool
is_file config_path = not (is_empty config_path) && not (contains (codes "--") config_path)

module _ (Y : Yaml) where
  open Y use {Memory}

  -- The configuration once the arguments are read.
  unfoldable pub load_for : ℤ → Text → Memory → WorkerConfig × Memory
  unfolding load_worker_config contains
  load_for id config_path m =
      if is_file config_path
      then load_worker_config Y config_path m
      else (record default_worker { id = id }, m)

  unfoldable pub configure : List Text → Exec Memory WorkerConfig
  unfolding read_arguments load_for settle_id
  configure args = do
    read ← lift (read_arguments args default_worker.id (codes "config/worker.yaml"))
    λ m. let (config, m') = load_for read.0 read.1 m in (settle_id args config, m')

-- registerWithScheduler
module _ (E : Etcd.Server) where
  unfoldable pub register_with_scheduler :
      WorkerConfig → ServiceRegistry → Exec E.State ServiceRegistry
  unfolding join
  register_with_scheduler config =
      join E config.etcd_endpoints (codes "worker") (worker_name config.id) config.address
        config.port ((codes "max_load", to_string config.max_concurrent_tasks) ∷ [])
