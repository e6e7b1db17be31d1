-- ===== src/HeapHelp/Refinement.antt =====
-- The tracker does what its specification says, call by call and for any sequence of them.
pub mod Steps
pub mod Bodies
pub mod Equations
pub mod Calls
pub mod Sessions
pub mod Count
pub mod Misuse
