-- ===== src/Userfs/Safe.antt =====
-- Every call keeps the invariant and has no fault.
pub mod Desc
pub mod Write
pub mod Read
pub mod Close
pub mod Room
pub mod Open
pub mod Resize
