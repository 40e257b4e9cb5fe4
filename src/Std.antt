-- ===== src/Std.antt =====
-- The containers and the lock of Rust's standard library, as far as the relay uses them.
pub mod HashMap
pub mod HashSet
pub mod Mutex
