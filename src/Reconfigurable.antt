-- ===== src/Reconfigurable.antt =====
-- reconfigurable/: the simulator whose links change their bandwidth while it runs. `State` has the
-- data, `Chunk`, `Link`, `Device` and `Topology` the classes of those names, `Manager` the
-- TopologyManager with the routes of `Routes`, and `Events` the callbacks.
pub mod State
pub mod Chunk
pub mod Link
pub mod Device
pub mod Topology
pub mod Forward
pub mod Transmission
pub mod Places
pub mod Devices
pub mod Synced
pub mod Draining
pub mod Requests
pub mod Initial
pub mod Sound
pub mod Reachable
pub mod Waiting
pub mod Counting
pub mod Idle
pub mod Routes
pub mod Manager
pub mod Events
pub mod Construct
pub mod Example
pub mod Text
pub mod Trace
pub mod Simulate
pub mod Examples
