-- ===== src/Bus.antt =====
-- pkg/bus: the transports that carry messages between agents.
pub mod Agreement
pub mod Memory
pub mod Sqlite
