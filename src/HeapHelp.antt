-- ===== src/HeapHelp.antt =====
-- utils/heap_help/heap_help.c: a tracker of heap allocations behind malloc, free and their like. One
-- thread is modelled, with its thread-local variables, and its locks as it finds and leaves them.
pub mod State
pub mod Track
pub mod Static
pub mod Symbols
pub mod Report
pub mod Bodies
pub mod Init
pub mod Calls
pub mod Invariant
pub mod Tracking
pub mod Spec
pub mod Refinement
pub mod Reporting
pub mod Startup
pub mod Aside
mod Examples
