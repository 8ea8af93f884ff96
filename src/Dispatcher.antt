-- ===== src/Dispatcher.antt =====
-- scheduler/task_dispatcher.cpp and task_dispatcher.h: what becomes of a task between the gateway
-- and the workers. A method runs from its beginning to its end; an exception of a call leaves it
-- there, with what the calls before have done.
pub mod Model
pub mod Methods
pub mod Closing
pub mod Connections
pub mod Submission
pub mod Effects
pub mod Endings
pub mod Requeue
pub mod Marks
pub mod Interleaving
pub mod Marking
mod Overlap
mod Commands
mod LifeCycle
mod Again
pub mod Traffic
mod Conservation
mod Retries
pub mod Tests
