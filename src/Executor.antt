-- ===== src/Executor.antt =====
-- src/worker/executor.js: the worker that posts the items of a batch's queue.
pub mod Client
pub mod Outcome
pub mod Processing
pub mod Slice
pub mod Unknown
pub mod Posting
pub mod Claims
