-- ===== src/BpfMap.antt =====
-- The kernel's hash maps as the programs and the daemon reach them (aya and aya-ebpf, which are not
-- part of the repository): the operations that the code calls, and what bpf(2) documents of them.
mod Derived
pub mod Assoc
pub use Derived.*
pub use Interface.*
mod Interface
