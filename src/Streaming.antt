-- ===== src/Streaming.antt =====
-- src/streaming: the window of recent events that a reconnecting client is caught up from.
pub mod ReplayBuffer
pub mod Cursor
pub mod Hub
