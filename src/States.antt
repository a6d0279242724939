-- ===== src/States.antt =====
-- src/core/states.js: the workflow state machines, their tables of legal transitions, and what the
-- tables promise of every legal history.
mod Tables
pub mod History
pub mod Progress
unfoldable pub use Tables.*
