-- ===== src/Mqueue.antt =====
-- The message queues of src/mqueue.c.
pub mod State
pub mod Sort
pub mod Transfer
pub mod Open
pub mod Prio
pub mod Places
pub mod Sorted
pub mod Enqueue
pub mod Send
pub mod Receive
mod Tests
pub mod Opened
pub mod Created
pub mod Reopened
