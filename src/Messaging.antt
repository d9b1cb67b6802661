-- ===== src/Messaging.antt =====
-- app/core/messaging and its adapters for Redis: the event bus and the transactional outbox.
pub mod Bus
pub mod Outbox
