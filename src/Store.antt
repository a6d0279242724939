-- ===== src/Store.antt =====
-- The store adapter (src/adapters/store/sqlite.js) as a state, its rows and its calls.
pub mod Rows
mod Monad
mod Calls
pub mod Logic
pub use Rows.*
unfoldable pub use Monad.*
unfoldable pub use Calls.*
