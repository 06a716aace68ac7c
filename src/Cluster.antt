-- ===== src/Cluster.antt =====
-- server/cluster: the messages between the nodes of a cluster, and the copying of missing messages.
pub mod Codec
pub mod Members
pub mod Synchronizer
pub mod Delegate
mod Examples
