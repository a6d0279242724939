-- ===== src/Transform.antt =====
-- The dry run that turns a voucher into the document that Books is sent (src/core/transform.js), and
-- what that document does to the ledgers (src/books/gl_effects.js).
pub mod Payload
pub mod Effects
pub mod Balanced
pub mod Refused
pub mod Build
pub mod Document
pub mod Content
pub mod Whole
pub mod Itemless
pub mod Mapped
pub mod Run
pub mod Stamped
