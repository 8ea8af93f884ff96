-- ===== src/Etcd/Services.antt =====
-- common/etcd_client.cpp, registerService to refreshService: a service is a key with a value that
-- goes with a lease.
use my_taskflow_system.Common.{
  Bool, true, false, Option, none, some, List, [], ◌∷◌, ◌++◌, Text, codes, is_empty, if◌then◌else◌,
}
use my_taskflow_system.Common.Int.{ℤ, pos, eq_ℤ}
use my_taskflow_system.Common.Maps.{Map}
use my_taskflow_system.Common.Exec.{Exec, Result, ok, throw, ◌>>=◌, ◌>>◌, pure, lift}
use my_taskflow_system.Common.Decimal.{to_string, stoi}
use my_taskflow_system.Common.Search.{after_last, search, match_quoted, match_digits}
use my_taskflow_system.Balancer.Model.{ServiceInfo}
use my_taskflow_system.Etcd.Server.{Server}
use my_taskflow_system.Etcd.Client.{
  EtcdClient, put_value, get_value, delete_key, get_all_with_prefix, create_lease, revoke_lease,
}

-- What the numbers of a `ServiceInfo info;` hold before they are written.
pub record Garbage : Type 0 where
  pub port : ℤ
  pub lease_id : ℤ
  pub last_update : ℤ

-- ServiceInfo info; info.name = name; info.id = id;
abbrev pub unset_service : Garbage → Text → Text → ServiceInfo
unset_service g name id = record {
  name = name;
  id = id;
  address = [];
  port = g.port;
  metadata = [];
  lease_id = g.lease_id;
  last_update = g.last_update;
}

abbrev pub service_prefix : Text → Text
service_prefix name = codes "/services/" ++ (name ++ codes "/")

abbrev pub service_key : Text → Text → Text
service_key name id = codes "/services/" ++ (name ++ (codes "/" ++ id))

-- The loop over the metadata; `first` is its flag.
abbrev pub metadata_entries : Bool → Map Text → Text
metadata_entries first [] = []
metadata_entries first ((k, v) ∷ m) =
    (if first then [] else codes ",")
    ++ (codes "\"" ++ (k ++ (codes "\":\"" ++ (v ++ (codes "\"" ++ metadata_entries false m)))))

abbrev pub metadata_text : Map Text → Text
metadata_text [] = []
metadata_text (e ∷ m) = codes ",\"metadata\":{" ++ (metadata_entries true (e ∷ m) ++ codes "}")

unfoldable pub service_value : Text → ℤ → Map Text → Text
service_value address port metadata =
    codes "{\"address\":\""
    ++ (address
        ++ (codes "\",\"port\":" ++ (to_string port ++ (metadata_text metadata ++ codes "}"))))

-- The groups of addr_regex and port_regex in a value.
unfoldable pub read_address : Text → Option Text
unfolding search match_quoted
read_address value = elim (search (match_quoted (codes "\"address\":\"")) value) [
  | some (group, rest) ↦ some group
  | none ↦ none
]

unfoldable pub read_port : Text → Option (Result ℤ)
unfolding search match_digits
read_port value = elim (search (match_digits (codes "\"port\":")) value) [
  | some (group, rest) ↦ some (stoi group)
  | none ↦ none
]

abbrev pub with_address : Option Text → ServiceInfo → ServiceInfo
with_address none info = info
with_address (some a) info = record info { address = a }

abbrev pub with_port : Option (Result ℤ) → ServiceInfo → Result ServiceInfo
with_port none info = ok info
with_port (some (ok p)) info = ok (record info { port = p })
with_port (some (throw e)) info = throw e

-- The searches for the address and the port in a value.
unfoldable pub read_service : Text → ServiceInfo → Result ServiceInfo
unfolding read_address read_port
read_service value info = with_port (read_port value) (with_address (read_address value) info)

-- key.substr(last_slash + 1)
abbrev pub id_of_key : Text → Text
id_of_key key = elim (after_last b'/' key) [ some id ↦ id | none ↦ [] ]

-- The loop of getServices.
unfoldable pub read_services : Garbage → Text → Map Text → Result (List ServiceInfo)
unfolding read_service after_last
read_services g name [] = ok []
read_services g name ((key, value) ∷ entries) =
    elim (read_service value (unset_service g name (id_of_key key))) [
      | throw e ↦ throw e
      | ok info ↦ (elim (read_services g name entries) [
        | throw e ↦ throw e
        | ok rest ↦ ok (info ∷ rest)
      ])
    ]

module _ (S : Server) where
  open S use {State}

  -- registerService once it has a lease.
  unfoldable pub register_leased : EtcdClient → Text → Text → Text → ℤ → Map Text → ℤ → Exec State ℤ
  unfolding put_value revoke_lease service_value
  register_leased c name id address port metadata lease_id s =
      let (written, s1) =
        put_value S c (service_key name id) (service_value address port metadata) lease_id s in
      let revoked = (revoke_lease S c lease_id s1).1 in
      if written then (ok lease_id, s1) else (ok (pos 0), revoked)

  unfoldable pub register_service :
      EtcdClient → Text → Text → Text → ℤ → Map Text → ℤ → Exec State ℤ
  unfolding create_lease register_leased
  register_service c name id address port metadata ttl_seconds = do
    lease_id ← create_lease S c ttl_seconds
    if eq_ℤ lease_id (pos 0)
        then pure (pos 0)
        else register_leased c name id address port metadata lease_id

  unfoldable pub deregister_service : EtcdClient → Text → Text → State → Bool × State
  unfolding delete_key
  deregister_service c name id = delete_key S c (service_key name id)

  unfoldable pub get_services : Garbage → EtcdClient → Text → Exec State (List ServiceInfo)
  unfolding get_all_with_prefix read_services
  get_services g c name = do
    services ← get_all_with_prefix S c (service_prefix name)
    lift (read_services g name services)

  unfoldable pub get_service : Garbage → EtcdClient → Text → Text → Exec State ServiceInfo
  unfolding get_value read_service
  get_service g c name id = do
    value ← get_value S c (service_key name id)
    if is_empty value
        then pure (unset_service g name id)
        else lift (read_service value (unset_service g name id))

  -- refreshService once it has a value: the address and the port that it reads are not used, but a
  -- port that no int holds throws.
  unfoldable pub refresh_value : EtcdClient → Text → Text → Exec State Bool
  unfolding create_lease put_value
  refresh_value c key value = do
    lease_id ← create_lease S c (pos 10)
    if eq_ℤ lease_id (pos 0)
        then pure false
        else (λ s. let (written, s') = put_value S c key value lease_id s in (ok written, s'))

  unfoldable pub refresh_service : Garbage → EtcdClient → Text → Text → Exec State Bool
  unfolding get_value read_service refresh_value
  refresh_service g c name id = do
    value ← get_value S c (service_key name id)
    if is_empty value then pure false else (do
      lift (read_service value (unset_service g name id))
      refresh_value c (service_key name id) value)
