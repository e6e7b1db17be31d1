-- ===== src/Userfs/Contract.antt =====
-- What the calls promise, from a valid state.
pub mod Write
pub mod Resize
pub mod Errors
pub mod Delete
