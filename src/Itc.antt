-- ===== src/Itc.antt =====
-- The component ITC, semaphores and queues of messages: src/tk_itc.c, src/tk_itcshared.c and
-- include/tk_itc.h.
pub mod State
pub mod Shared
pub mod Stages
pub mod Semaphore
pub mod Queue
pub mod Ring
pub mod Removal
pub mod Exchange
pub mod Idle
pub mod Messages
pub mod Direct
pub mod Posix
pub mod DirectCalls
mod Tests
