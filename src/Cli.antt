-- ===== src/Cli.antt =====
-- crates/ebpf-assist: the command line client, where it talks to the daemon. `Format` is what it takes
-- from Rust's formatting.
pub mod Client
pub mod Output
pub mod Errors
pub mod Commands
pub mod Main
pub mod Compile
pub mod Trace
pub mod MicroVms
pub mod Tests
use ebpf_assist.Prelude.{ℕ, String}
use ebpf_assist.Common.{Text}

-- The `Display` of a number, and of the text of a key or a value.
pub record Format : Type 0 where
  pub show : ℕ → String
  pub show_text : Text → String
