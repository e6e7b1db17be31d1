-- ===== src/Userfs.antt =====
-- homework-03/userfs.c and userfs.h: the in-memory file system, as values and state.
pub mod Block
pub mod State
pub mod Open
pub mod Write
pub mod Read
pub mod Close
pub mod Resize
pub mod Files
pub mod Table
pub mod Invariant
pub mod Linking
pub mod References
pub mod Sizes
pub mod Chain
pub mod Written
pub mod Safe
pub mod Chop
pub mod Stretch
pub mod Session
pub mod Names
pub mod Content
pub mod Reading
pub mod Appending
pub mod Tail
pub mod Contract
mod Examples
mod Tests
