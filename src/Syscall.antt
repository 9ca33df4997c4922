-- ===== src/Syscall.antt =====
-- The crate `syscall`: error numbers, call numbers, flags, packets and the `Scheme` trait.
pub mod Error
pub mod Number
pub mod Flag
pub mod Scheme
