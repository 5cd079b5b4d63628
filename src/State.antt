-- ===== src/State.antt =====
-- pkg/controllers/state: the in-memory view of the cluster that every decision reads. The locks make
-- each method one step; a method returns the new state.
pub mod Exit
pub mod Cluster
pub mod Synced
pub mod Informer
pub mod Events
mod Tests
