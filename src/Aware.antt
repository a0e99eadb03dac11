-- ===== src/Aware.antt =====
-- The congestion-aware simulator: congestion_aware/. `State` has the data, `Chunk`, `Link`, `Device`
-- and `Topology` the classes of those names, `Basic` the three topologies, `Simulation` the events.
pub mod State
pub mod Chunk
pub mod Link
pub mod Device
pub mod Topology
pub mod Basic
pub mod Construct
pub mod Simulation
pub mod Work
pub mod Clock
pub mod Delay
pub mod Transmission
pub mod Protocol
pub mod Progress
pub mod Example
pub mod Alone
mod Examples
