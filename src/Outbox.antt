-- ===== src/Outbox.antt =====
-- The Outbox: the events that email.outbox holds and the relay that publishes them. `Event` is
-- internal/model/outbox_event.go, `Relay` is internal/outbox/relay.go, and `Table` is what
-- internal/store/postgres/outbox_store.go does to the table.
pub mod Event
pub mod Relay
pub mod Table
mod Tests
