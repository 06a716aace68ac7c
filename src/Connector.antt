-- ===== src/Connector.antt =====
-- server/connector: the subscribers of a push connector, their manager and their requests.
pub mod Subscriber
pub mod Manager
pub mod Endpoint
pub mod Queue
pub mod Running
mod Examples
