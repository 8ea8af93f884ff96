-- ===== src/Etcd.antt =====
-- common/etcd_client.cpp and etcd_client.h: the client of etcd's HTTP gateway (Etcd/Codec.antt: the
-- escaping of keys and values; Etcd/Client.antt: the requests; Etcd/Services.antt: services kept as
-- keys; Etcd/Registry.antt: the class ServiceRegistry). curl with the server behind it is a
-- parameter, Etcd/Server.antt.
pub mod Codec
pub mod Server
pub mod Client
pub mod Services
pub mod Registry
pub mod RoundTrip
mod Tests
