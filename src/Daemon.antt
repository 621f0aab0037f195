-- ===== src/Daemon.antt =====
-- crates/ebpf-assistd/src: the privileged daemon. `Host` is what the daemon takes from outside the
-- repository (capctl, aya, polkit over D-Bus, the clock), `Io` an effectful computation that may
-- fail, and the other modules are the files of the crate.
pub mod Host
pub mod Io
pub mod Caps
pub mod Keys
pub mod Loader
pub mod Maps
pub mod Auth
pub mod Handler
pub mod Server
pub mod Tests
