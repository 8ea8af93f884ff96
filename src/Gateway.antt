-- ===== src/Gateway.antt =====
-- gateway/http_handler.cpp, http_handler.h and gateway.cpp: HTTP in front of the scheduler
-- (Gateway/Query.antt: paths and query strings; Gateway/Body.antt: the expressions that read the
-- body; Gateway/Handler.antt: the handlers; Gateway/Connection.antt: one connection of the server).
pub mod Query
pub mod Body
pub mod Handler
pub mod Connection
pub mod QueryRoundTrip
pub mod RequestLines
mod RequestRoundTrip
pub mod Reasons
pub mod Responses
pub mod Fields
pub mod Lookups
pub mod Delivery
mod Tests
