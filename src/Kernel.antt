-- ===== src/Kernel.antt =====
-- The inner kernel: src/tk.c, src/tk_switch.c and the types of src/implement_tk.h.
pub mod State
pub mod Family
pub mod Threads
pub mod Wait
pub mod Dispatch
pub mod Boot
pub mod Rows
pub mod Keep
pub mod Scan
pub mod Choice
pub mod Life
pub mod Rotation
pub mod Flaws
mod Tests
