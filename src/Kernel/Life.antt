-- ===== src/Kernel/Life.antt =====
-- The calls of src/tk.c and src/tk_switch.c in any order, from the start of the kernel on.
pub mod Face
pub mod Orderly
pub mod Yielding
pub mod Calls
pub mod Begin
pub mod Steps
mod Tests
