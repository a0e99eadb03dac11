-- ===== src/Unaware.antt =====
-- The congestion-unaware simulator: congestion_unaware/. `Basic` is the base class with its three
-- topologies, `MultiDim` composes them, `Construct` is topology/Helper.cpp.
pub mod Basic
pub mod MultiDim
pub mod Construct
mod Example
