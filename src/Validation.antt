-- ===== src/Validation.antt =====
-- The programs of CinderUserspace/cinder_validation, which try the system calls out: each has a
-- module of its own. They have no state but that of the kernel, so a run is its calls.
pub mod Double
pub mod Ledger
pub mod Subdivide
pub mod Fork
pub mod Plumbing
pub mod Feeding
