-- ===== src/Etcd/Server.antt =====
-- What common/etcd_client.cpp uses of curl and of etcd's HTTP gateway: the requests and what a
-- transfer comes to. curl with the server behind it is a parameter: a state, and what a request
-- does to it; no transfer is a null pointer of curl_easy_init.
use my_taskflow_system.Common.{Option, Bool, Text}
use my_taskflow_system.Common.Int.{ℤ}

-- The URL and the body as curl sees them; `check` is a request with no body of the reply.
pub data Request : Type 0 where
  check : Text → Request
  send : (method url body : Text) → Request

-- ok: curl_easy_perform returned CURLE_OK.
pub record Transfer : Type 0 where
  pub is_ok : Bool
  pub http_code : ℤ
  pub response : Text

pub record Server : Type 1 where
  pub State : Type 0
  pub perform : Request → State → Option Transfer × State
