-- ===== src/Etcd/Registry.antt =====
-- common/etcd_client.cpp, ServiceRegistry. Its mutex serialises the methods; one round of the refresh
-- loop is a step of its own.
use my_taskflow_system.Common.{
  Bool, true, false, not, ◌&&◌, Option, none, some, List, [], Text, is_empty, if◌then◌else◌,
}
use my_taskflow_system.Common.Int.{ℤ, pos, ltb_ℤ}
use my_taskflow_system.Common.Maps.{Map}
use my_taskflow_system.Common.Exec.{bind, Exec, ◌>>=◌, ◌>>◌, pure}
use my_taskflow_system.Balancer.Model.{ServiceInfo}
use my_taskflow_system.Etcd.Server.{Server}
use my_taskflow_system.Etcd.Client.{EtcdClient, new_client, connect}
use my_taskflow_system.Etcd.Services.{
  Garbage, register_service, deregister_service, get_services, get_service, refresh_service,
}

-- `refreshing`: there is a thread of the refresh loop.
pub record ServiceRegistry : Type 0 where
  pub client : Option EtcdClient
  pub service_name : Text
  pub service_id : Text
  pub running : Bool
  pub refreshing : Bool

-- The constructor.
abbrev pub new_registry : ServiceRegistry
new_registry = record {
  client = none;
  service_name = [];
  service_id = [];
  running = false;
  refreshing = false;
}

-- ServiceInfo{}
abbrev pub no_service : ServiceInfo
no_service = record {
  name = [];
  id = [];
  address = [];
  port = pos 0;
  metadata = [];
  lease_id = pos 0;
  last_update = pos 0;
}

abbrev pub is_named : ServiceRegistry → Bool
is_named r = not (is_empty r.service_name) && not (is_empty r.service_id)

unfoldable pub start_refresh_loop : Text → Text → ServiceRegistry → ServiceRegistry
start_refresh_loop name id r = record r {
  running = true;
  service_name = name;
  service_id = id;
  refreshing = true;
}

-- The join waits for the thread to end.
unfoldable pub stop_refresh_loop : ServiceRegistry → ServiceRegistry
stop_refresh_loop r = record r { running = false; refreshing = false }

module _ (S : Server) where
  open S use {State}

  unfoldable pub init : Text → ServiceRegistry → State → ServiceRegistry × State
  unfolding connect
  init etcd_endpoints r s =
      let (reached, s') = connect S (new_client etcd_endpoints) s in
      (record r { client = some reached.1 }, s')

  -- What registerService of the registry keeps of its client's answer.
  unfoldable pub named_if : Text → Text → ServiceRegistry → ℤ → Bool × ServiceRegistry
  named_if name id r lease_id =
      if ltb_ℤ (pos 0) lease_id
      then (true, record r { service_name = name; service_id = id })
      else (false, r)

  unfoldable pub register :
      Text → Text → Text → ℤ → Map Text → ServiceRegistry → Exec State (Bool × ServiceRegistry)
  unfolding register_service named_if
  register name id address port metadata r = elim r.client [
    | none ↦ pure (false, r)
    | some c ↦ (do
      lease_id ← register_service S c name id address port metadata (pos 10)
      pure (named_if name id r lease_id))
  ]

  unfoldable pub deregister : Text → Text → ServiceRegistry → State → Bool × State
  unfolding deregister_service
  deregister name id r s = elim r.client [
    | none ↦ (false, s)
    | some c ↦ deregister_service S c name id s
  ]

  -- One round of the refresh loop after its sleep; an exception would end the program.
  unfoldable pub refresh_round : Garbage → ServiceRegistry → Exec State (Unit {0})
  unfolding refresh_service
  refresh_round g r =
      let refreshed : Exec State (Unit {0}) = elim r.client [
        | none ↦ pure tt
        | some c ↦ (do refresh_service S g c r.service_name r.service_id; pure tt)
      ] in
      if r.running && is_named r then refreshed else pure tt

  unfoldable pub services_of : Garbage → Text → ServiceRegistry → Exec State (List ServiceInfo)
  unfolding get_services
  services_of g name r = elim r.client [ none ↦ pure [] | some c ↦ get_services S g c name ]

  unfoldable pub service_of : Garbage → Text → Text → ServiceRegistry → Exec State ServiceInfo
  unfolding get_service
  service_of g name id r = elim r.client [
    | none ↦ pure no_service
    | some c ↦ get_service S g c name id
  ]

  unfoldable pub shutdown : ServiceRegistry → State → ServiceRegistry × State
  unfolding stop_refresh_loop deregister
  shutdown r s =
      let stopped = stop_refresh_loop r in
      let gone = (deregister r.service_name r.service_id stopped s).1 in
      (record stopped { client = none }, if is_named r then gone else s)

  -- What the services do when they start: they connect the registry, register themselves and, if
  -- that succeeds, keep the registration fresh.
  unfoldable pub join :
      Text → Text → Text → Text → ℤ → Map Text → ServiceRegistry → Exec State ServiceRegistry
  unfolding init register start_refresh_loop
  join etcd_endpoints name id address port metadata r s =
      let (r1, s1) = init etcd_endpoints r s in
      bind (register name id address port metadata r1 s1)
        (λ done. pure (if done.0 then start_refresh_loop name id done.1 else done.1))
