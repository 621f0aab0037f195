-- ===== src/Vm.antt =====
-- crates/ebpf-assist-vm: the host's side of the microVMs, their protocol and their pool.
pub mod Protocol
pub mod Crash
pub mod Firecracker
pub mod Config
pub mod Machine
pub mod MicroVm
pub mod Wire
pub mod Pool
pub mod Tests
