-- ===== src/Cpi.antt =====
-- `src/cpi`: the operations that BOSH calls, over an adapter.
pub mod State
pub mod Errors
pub mod Factory
pub mod Devices
pub mod Requests
pub mod Agent
pub mod Disk
pub mod Snapshot
pub mod Vm
pub mod Create
pub mod Stemcell
pub mod Guard
