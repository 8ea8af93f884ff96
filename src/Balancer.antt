-- ===== src/Balancer.antt =====
-- scheduler/load_balancer.cpp and load_balancer.h: the workers that the scheduler knows, and the
-- choice of one. The mutex serialises the methods, so each is one function on the state. The clock
-- readings of one call are a function of the worker for which they are taken.
pub mod Model
pub mod Strategies
mod Workers
mod Pairing
mod Selection
mod Choice
mod Rotation
pub mod Sample
mod Tests
