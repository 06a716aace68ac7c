-- ===== src/Protocol.antt =====
-- The package protocol: the text forms of messages, commands and notifications.
pub mod Split
pub mod Decimal
pub mod Payload
pub mod Command
pub mod Notification
pub mod Message
mod Examples
