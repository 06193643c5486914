-- ===== src/Messaging.antt =====
-- src/messaging: the attempts at a message that fails, and the broker inside the process.
pub mod Broker
pub mod Ladder
