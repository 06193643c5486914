-- ===== src/Realtime.antt =====
-- src/realtime: what is sent to the clients of the WebSocket gateway, and who is in which room.
pub mod Registry
pub mod Socket
