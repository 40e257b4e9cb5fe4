-- ===== src/External.antt =====
-- What the relay takes from other packages: each package is a record of the types and operations
-- that the source uses, with the documented behaviour that proofs rely on.
pub mod Mpsc
pub mod Json
pub mod Elements
pub mod Lwk
pub mod Packages
