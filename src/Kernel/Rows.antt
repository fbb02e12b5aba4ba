-- ===== src/Kernel/Rows.antt =====
-- Facts about the rows of `__tk_schedule`.
pub mod Shift
pub mod Defs
pub mod Remove
pub mod Place
pub mod Kin
