-- ===== src/Etcd/Client.antt =====
-- common/etcd_client.cpp, connect to revokeLease. The client's mutex serialises the requests.
use my_taskflow_system.Common.{
  zero, Bool, false, not, ◌&&◌, Option, none, some, List, [], ◌∷◌, ◌++◌, Text, codes, c_str,
  is_empty, if◌then◌else◌,
}
use my_taskflow_system.Common.Int.{ℤ, pos, leb_ℤ, ltb_ℤ}
use my_taskflow_system.Common.Maps.{Map, put}
use my_taskflow_system.Common.Exec.{Exec, Result, ok, throw, ◌>>=◌, pure}
use my_taskflow_system.Common.Decimal.{to_string, stoll}
use my_taskflow_system.Common.Search.{starts_with, search, search_all, match_quoted, match_digits}
use my_taskflow_system.Etcd.Codec.{encode_value, decode_value}
use my_taskflow_system.Etcd.Server.{Server, check, send, Transfer}

pub record EtcdClient : Type 0 where
  pub endpoints : Text
  pub connected : Bool

-- The constructor.
abbrev pub new_client : Text → EtcdClient
new_client endpoints = record { endpoints = endpoints; connected = false }

-- endpoints_ with its scheme.
unfoldable pub endpoint_of : EtcdClient → Text
endpoint_of c =
    if not (starts_with (codes "http://") c.endpoints)
      && not (starts_with (codes "https://") c.endpoints)
    then codes "http://" ++ c.endpoints
    else c.endpoints

-- res == CURLE_OK && http_code >= 200 && http_code < limit
abbrev pub is_success : ℤ → Option Transfer → Bool
is_success limit none = false
is_success limit (some t) = t.is_ok && leb_ℤ (pos 200) t.http_code && ltb_ℤ t.http_code limit

abbrev pub response_of : Option Transfer → Text
response_of none = []
response_of (some t) = t.response

unfoldable pub disconnect : EtcdClient → EtcdClient
disconnect c = record c { connected = false }

-- {"key":"…"}
abbrev pub key_body : Text → Text
key_body key = codes "{\"key\":\"" ++ (encode_value key ++ codes "\"}")

abbrev pub lease_text : ℤ → Text
lease_text lease_id =
    if ltb_ℤ (pos 0) lease_id then codes ",\"lease\":" ++ to_string lease_id else []

abbrev pub put_body : Text → Text → ℤ → Text
put_body key value lease_id =
    codes "{\"key\":\""
    ++ (encode_value key
        ++ (codes "\",\"value\":\""
            ++ (encode_value value ++ (codes "\"" ++ (lease_text lease_id ++ codes "}")))))

abbrev pub range_body : Text → Text
range_body prefix =
    codes "{\"key\":\""
    ++ (encode_value prefix
        ++ (codes "\",\"range_end\":\""
            ++ (encode_value prefix ++ codes "\",\"count_only\":false}")))

abbrev pub id_body : ℤ → Text
id_body lease_id = codes "{\"ID\":" ++ (to_string lease_id ++ codes "}")

-- The first group of the first match, decoded; "" without a match.
unfoldable pub read_value : Text → Result Text
unfolding search match_quoted decode_value
read_value response = elim (search (match_quoted (codes "\"value\":\"")) response) [
  | some (group, rest) ↦ decode_value group
  | none ↦ ok []
]

-- The texts of a list decoded, up to the first that throws.
unfoldable pub decode_all : List Text → Result (List Text)
unfolding decode_value
decode_all [] = ok []
decode_all (k ∷ ks) = elim (decode_value k) [
  | throw e ↦ throw e
  | ok d ↦ (elim (decode_all ks) [ throw e ↦ throw e | ok ds ↦ ok (d ∷ ds) ])
]

unfoldable pub read_keys : Text → Result (List Text)
unfolding search_all decode_all
read_keys response = decode_all (search_all (codes "\"key\":\"") zero response)

-- The number after "ID":, and 0 without one.
unfoldable pub read_id : Text → Result ℤ
unfolding search match_digits
read_id response = elim (search (match_digits (codes "\"ID\":")) response) [
  | some (group, rest) ↦ stoll group
  | none ↦ ok (pos 0)
]

module _ (S : Server) where
  open S use {State, perform}

  -- What connect returns and the client that it leaves.
  unfoldable pub connect : EtcdClient → State → (Bool × EtcdClient) × State
  unfolding endpoint_of
  connect c s =
      let (t, s') = perform (check (c_str (endpoint_of c ++ codes "/health"))) s in
      let reached = is_success (pos 400) t in
      (elim t [ none ↦ (false, c) | some _ ↦ (reached, record c { connected = reached }) ], s')

  -- The response and *success.
  unfoldable pub make_request : EtcdClient → Text → Text → Text → State → (Text × Bool) × State
  unfolding endpoint_of
  make_request c method path body s =
      let (t, s') = perform (send (c_str method) (c_str (endpoint_of c ++ path)) (c_str body)) s in
      ((response_of t, is_success (pos 300) t), s')

  unfoldable pub put_value : EtcdClient → Text → Text → ℤ → State → Bool × State
  unfolding make_request
  put_value c key value lease_id s =
      let (reply, s') =
        make_request c (codes "PUT") (codes "/v3/kv/put") (put_body key value lease_id) s in
      (reply.1, s')

  unfoldable pub get_value : EtcdClient → Text → Exec State Text
  unfolding make_request read_value
  get_value c key s =
      let (reply, s') = make_request c (codes "POST") (codes "/v3/kv/range") (key_body key) s in
      (if reply.1 then read_value reply.0 else ok [], s')

  unfoldable pub delete_key : EtcdClient → Text → State → Bool × State
  unfolding make_request
  delete_key c key s =
      let (reply, s') = make_request c (codes "DELETE") (codes "/v3/kv/del") (key_body key) s in
      (reply.1, s')

  unfoldable pub get_prefix : EtcdClient → Text → Exec State (List Text)
  unfolding make_request read_keys
  get_prefix c prefix s =
      let (reply, s') =
        make_request c (codes "POST") (codes "/v3/kv/range") (range_body prefix) s in
      (if reply.1 then read_keys reply.0 else ok [], s')

  -- The loop of getAllWithPrefix.
  unfoldable pub get_each : EtcdClient → List Text → Map Text → Exec State (Map Text)
  unfolding get_value
  get_each c [] found = pure found
  get_each c (key ∷ keys) found = do
    value ← get_value c key
    get_each c keys (if is_empty value then found else put key value found)

  unfoldable pub get_all_with_prefix : EtcdClient → Text → Exec State (Map Text)
  unfolding get_prefix get_each
  get_all_with_prefix c prefix = do keys ← get_prefix c prefix; get_each c keys []

  unfoldable pub create_lease : EtcdClient → ℤ → Exec State ℤ
  unfolding make_request read_id
  create_lease c ttl_seconds s =
      let (reply, s') =
        make_request c (codes "POST") (codes "/v3/lease/grant")
          (codes "{\"TTL\":" ++ (to_string ttl_seconds ++ codes "}")) s in
      (if reply.1 then read_id reply.0 else ok (pos 0), s')

  unfoldable pub keep_alive : EtcdClient → ℤ → State → Bool × State
  unfolding make_request
  keep_alive c lease_id s =
      let (reply, s') =
        make_request c (codes "POST") (codes "/v3/lease/keepalive") (id_body lease_id) s in
      (reply.1, s')

  unfoldable pub revoke_lease : EtcdClient → ℤ → State → Bool × State
  unfolding make_request
  revoke_lease c lease_id s =
      let (reply, s') =
        make_request c (codes "POST") (codes "/v3/lease/revoke") (id_body lease_id) s in
      (reply.1, s')
