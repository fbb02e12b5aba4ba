-- ===== src/Pthread.antt =====
-- The component PTHREAD: src/pthread_sync.c, src/pthread_mutex.c, src/pthread_cond.c and
-- src/pthread_rwlock.c.
pub mod Mutex
pub mod Cond
pub mod Handover
pub mod Broadcast
pub mod Rwlock
pub mod Crowd
pub mod Counted
pub mod Exclusive
pub mod Sched
pub mod Once
pub mod Params
mod Tests
mod ThreadTests
