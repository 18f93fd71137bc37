-- ===== src/Realtime.antt =====
-- src/realtime: notifications of the database, and the events that clients receive.
pub mod Listener
pub mod Websocket
