-- ===== src/HeapHelp/Reporting.antt =====
-- The report of heaph_atexit against a description of it.
pub mod Reference
pub mod Loop
pub mod Laws
pub mod Freed
