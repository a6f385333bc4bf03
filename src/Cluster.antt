-- ===== src/Cluster.antt =====
-- The nodes of the cluster and the choice of a node for a key: cluster/.
pub mod Router
pub mod Picking
pub mod Moving
pub mod Inserting
pub mod Health
pub mod Checking
pub mod Tests
mod Examples
