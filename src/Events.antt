-- ===== src/Events.antt =====
-- The events of core/event: the filters, and the events of the metadata of a closed ledger.
pub mod Filter
pub mod Event
pub mod Parsing
pub mod Delivered
mod Tests
