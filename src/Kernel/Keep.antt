-- ===== src/Kernel/Keep.antt =====
-- The operations on threads keep the schedule in order.
pub mod Delete
pub mod Prio
pub mod Boot
pub mod Free
pub mod Create
pub mod Yield
