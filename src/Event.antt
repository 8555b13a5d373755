-- ===== src/Event.antt =====
-- internal/event/inbound_message.go: the event that starts Flow for a new inbound message.
pub mod Clean
pub mod Snapshot
pub mod Envelope
pub mod Json
pub mod Limits
pub mod Row
mod Tests
