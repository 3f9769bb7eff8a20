-- ===== src/Events.antt =====
-- backend/lexmind/events: who is subscribed to what, the call of the handlers, and the bus.
pub mod Subscriptions
pub mod Dispatcher
pub mod Bus
