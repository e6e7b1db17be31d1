-- ===== src/ThreadPool.antt =====
-- homework-04/thread_pool.c: a pool of worker threads, the tasks they run, and one thread that
-- calls the pool.
pub mod Task
pub mod TaskLaws
pub mod Pool
pub mod System
pub mod Invariant
mod Examples
