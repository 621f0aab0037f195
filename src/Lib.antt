-- ===== src/Lib.antt =====
-- ebpf-assist lets unprivileged users load eBPF programs through a privileged daemon, on the host
-- or in microVMs. This library models its core in Rust and proves what makes it correct.
--
-- The parts, and the files of the repository that they model:
--   Prelude, Table   lists, results, texts and hash maps; no code of the repository.
--   Common           crates/ebpf-assist-common/src/lib.rs: requests, responses, program types and
--                    the default policy (`default_policy`, `policy_reason`).
--   Daemon.Host      what the daemon takes from outside the repository, as one record: capctl, aya,
--                    polkit over D-Bus, the clock. `CapLaws` is the documented behaviour of
--                    capability sets.
--   Daemon.Io        an effectful computation that may fail, with the outermost message of an
--                    `anyhow::Error` as its error.
--   Daemon.Caps      crates/ebpf-assistd/src/caps.rs: `raise_caps`, `drop_caps`, `with_caps`.
--   Daemon.Keys      the texts of map keys and values in crates/ebpf-assistd/src/loader.rs:
--                    `parse_key`, `parse_value`, and the formats of a dump.
--   Daemon.Loader    the programs of loader.rs: `load`, `attach`, `detach`, `unload`.
--   Daemon.Maps      the maps of loader.rs: `list_maps`, `read_map`, `write_map`,
--                    `delete_map_entry`.
--   Daemon.Auth      crates/ebpf-assistd/src/auth.rs: polkit's answers and their cache.
--   Daemon.Handler   crates/ebpf-assistd/src/handler.rs: `handle_request`, one request.
--   Daemon.Server    crates/ebpf-assistd/src/server.rs: `handle_client`, the lines of one client.
--   Vm.Protocol      crates/ebpf-assist-vm/src/protocol.rs and error.rs.
--   Vm.Crash         `CrashInfo` of crates/ebpf-assist-vm/src/firecracker.rs.
--   Vm.Machine       the interface of a microVM to Firecracker and to the guest's agent.
--   Vm.MicroVm       `MicroVm` of crates/ebpf-assist-vm/src/manager.rs.
--   Vm.Pool          `MicroVmManager` of manager.rs, with `PoolConfig` of config.rs.
--                    Its operations run one after another; `Shared` in Vm.Pool.Clean has the lock
--                    sections of calls at once as steps.
--   Vm.Pool.Tasks    the same manager between its two locks, with calls of several tasks at once as
--                    steps; of the pool only the numbers of VMs are kept.
--   Vm.Firecracker   `FirecrackerInstance` of firecracker.rs.
--   Vm.Config        the configuration of a VM and the search for Firecracker, of config.rs.
--   Vm.Wire.Client   the handshake, `ping` and `status` of vsock_client.rs.
--   Vm.Wire          `GuestClient::send_command` of crates/ebpf-assist-vm/src/vsock_client.rs.
--   Agent.Loader     crates/ebpf-assist-agent/src/loader.rs: the programs in a guest.
--   Agent.Handler    crates/ebpf-assist-agent/src/handler.rs: `handle`, one command.
--   Agent.Connection `handle_connection` of crates/ebpf-assist-agent/src/main.rs.
--   Json             the JSON values that the clients print and read.
--   Cli.Client       crates/ebpf-assist/src/client.rs: the connection to the daemon.
--   Cli.Commands     crates/ebpf-assist/src/commands.rs: what each command prints and how it ends,
--                    with `improve_error` in Cli.Errors.
--   Cli.Main         the commands on the daemon of crates/ebpf-assist/src/main.rs.
--   Cli.Compile      crates/ebpf-assist/src/compile.rs, and the commands `compile` and `new`.
--   Cli.Trace        `read_trace_pipe` of crates/ebpf-assist/src/trigger.rs.
--   Cli.MicroVms     the commands on microVMs of crates/ebpf-assist/src/vm.rs.
--   Mcp.Protocol     crates/ebpf-assist-mcp/src/protocol.rs: the JSON-RPC messages.
--   Mcp.Schemas      the tools that `handle_tools_list` of crates/ebpf-assist-mcp/src/tools.rs lists.
--   Mcp.Process      the tools of tools.rs that run the command line client as a process.
--   Mcp.Tools        the tools of tools.rs that ask the daemon, and `handle_tools_call`.
--   Mcp.Server       crates/ebpf-assist-mcp/src/main.rs: one request, and the loop.
-- Each part has child modules with its theorems, and Tests modules run the definitions.
--
-- How they interact: the command line client and the MCP server send one line per request and read
-- one; in Cli.Main.Service and Mcp.Tools.Service their socket is the daemon's own loop. A line of a
-- client becomes a request (Server), the handler asks the
-- authorization for a load or an attach and then calls the loader, which raises capabilities around
-- the calls of aya. A method that changes a Rust object is a function from the old state and the
-- world to the new ones and a result; an early return by `?` is the failure of a step of `Io`. A
-- panic that cannot happen is an error value, and a theorem says that it does not occur.
--
-- Bounds: ids of programs count modulo 2^32, keys are below 2^32 and values below 2^64 where the
-- source parses them as u32 and u64. Sizes of collections and times in seconds are unbounded
-- numbers. Loops are structural recursion; the ten attempts of `MicroVm::connect` are a counter.
-- The loop of `wait_for_exit` has a number of rounds too, and 103 are enough.
-- The loop of an agent's connection has a number of rounds, and one more than the bytes of the
-- stream are enough.
--
-- Not modelled: the accept loop and the socket's permissions, serde's formats, logging, failing
-- writes to a client, other clients between the authorization check and the operation of one
-- request, `warm_up` and `shutdown_all` among concurrent calls of the pool, HTTP below the
-- calls to Firecracker, the triggers and the trace pipe of the agent, and of the command line client
-- the triggers and `vm status`.
pub mod Agent
pub mod Cli
pub mod Common
pub mod Daemon
pub mod Json
pub mod Mcp
pub mod Prelude
pub mod Table
pub mod Vm
