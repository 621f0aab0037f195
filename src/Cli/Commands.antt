-- ===== src/Cli/Commands.antt =====
-- crates/ebpf-assist/src/commands.rs: one function per command, from the response to what is printed
-- and how the command ends.
pub mod Programs
pub mod Auth
pub mod Maps
