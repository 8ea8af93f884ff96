-- ===== src/Etcd/Tests.antt =====
-- The texts for etcd at concrete inputs.
use my_taskflow_system.Common.{[], ◌≢◌, codes}
use my_taskflow_system.Common.Int.{pos}
use my_taskflow_system.Common.Exec.{ok}
use my_taskflow_system.Etcd.Codec.{encode_value, decode_value}
use my_taskflow_system.Etcd.Services.{service_value}
use my_taskflow_system.Etcd.RoundTrip.{service_value_lost}

service_value_lost_example :
    decode_value (encode_value (service_value (codes "localhost") (pos 80) []))
    ≢ ok (service_value (codes "localhost") (pos 80) [])
service_value_lost_example = service_value_lost (codes "localhost") (pos 80) []
