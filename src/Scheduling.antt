-- ===== src/Scheduling.antt =====
-- pkg/controllers/provisioning/scheduling: the placement of tunnels on exits.
pub mod Ports
pub mod Requirements
pub mod Resources
pub mod Exits
pub mod Offerings
pub mod Solve
