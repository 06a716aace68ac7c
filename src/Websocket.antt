-- ===== src/Websocket.antt =====
-- server/websocket: the receivers of a client, and the commands that it sends.
pub mod Receiver
pub mod Commands
mod Examples
