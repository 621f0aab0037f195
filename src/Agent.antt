-- ===== src/Agent.antt =====
-- crates/ebpf-assist-agent: the agent in the guest of a microVM.
pub mod Loader
pub mod Handler
pub mod Connection
pub mod Tests
