-- ===== src/Solution.antt =====
-- homework-01/solution.c: files sorted by coroutines, each by a heap sort that yields, and merged.
pub mod Timer
pub mod HeapSort
pub mod Arguments
pub mod ArgumentLaws
pub mod Merge
pub mod Merged
pub mod Ascending
pub mod Stream
pub mod Whole
pub mod Faults
pub mod Yields
pub mod Program
mod Examples
