-- ===== src/Events.antt =====
-- src/aieos/platform/events: the outbox of integration events and its dispatcher.
pub mod Outbox
pub mod Dispatcher
pub mod ContentEvents
mod Examples
