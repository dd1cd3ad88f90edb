-- ===== src/Pcops.antt =====
-- internal/pcops: the composition root over the gate, the bus, the leases and the agent runtime.
pub mod Courier
pub mod Watch
pub mod Runner
pub mod Config
pub mod Run
pub mod Waiter
pub mod Submit
pub mod Up
