-- ===== src/Books.antt =====
-- src/books: the pure parts of the Zoho Books client, which decide whether a record may be posted,
-- what an answer means, and when a call may be made again.
pub mod Guard
pub mod Classify
pub mod Retry
pub mod Window
