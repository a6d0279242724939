-- ===== src/Batch.antt =====
-- src/core/batch.js: migration batches, their approval for an exact scope, and their queueing.
pub mod Scope
pub mod Creating
pub mod Approving
pub mod Enqueuing
pub mod Approved
pub mod Queued
