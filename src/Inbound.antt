-- ===== src/Inbound.antt =====
-- internal/inbound: from a parsed email to a stored message, and the tables that it writes.
mod Tests
pub mod Store
pub mod Action
pub mod Rows
pub mod Completion
pub mod Persistence
pub mod Finished
pub mod Mime
