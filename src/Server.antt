-- ===== src/Server.antt =====
-- internal/server: the hub of websocket clients, and the dashboard's requests.
mod Tests
pub mod Hub
pub mod Http
pub mod Websocket
