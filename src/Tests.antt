-- ===== src/Tests.antt =====
-- Concrete maps, packets and states, and the theorems at them.
pub mod Data
pub mod Chain
pub mod EndToEnd
pub mod Xdp
pub mod Packets
pub mod Daemons
pub mod Daemon
pub mod Exposure
pub mod System
pub mod Setup
pub mod Network
pub mod Delivery
pub mod Withdrawn
pub mod Client
pub mod Concurrent
