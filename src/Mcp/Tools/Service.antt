-- ===== src/Mcp/Tools/Service.antt =====
-- The tools of crates/ebpf-assist-mcp on the daemon of crates/ebpf-assistd: the server's socket is the
-- daemon's loop over the lines of one client.
use ebpf_assist.Prelude.{false, not, String, ◌<>◌, ok, str_eq, ◌≡◌, refl}
use ebpf_assist.Common.Answers.{is_error}
use ebpf_assist.Daemon.Host.{Host}
use ebpf_assist.Daemon.Handler.{State, handle_request}
use ebpf_assist.Daemon.Handler.Answers.{handle_request-is_answer}
use ebpf_assist.Daemon.Server.{Codec}
use ebpf_assist.Cli.Main.Service.{ClientCodec, daemon_socket, exchange-handle}
use ebpf_assist.Mcp.{Outside}
use ebpf_assist.Prelude.{String, List, Result, ◌∙◌}
use ebpf_assist.Json.{Json}
use ebpf_assist.Mcp.{Output}
use ebpf_assist.Mcp.Args.{LoadArgs, IdArgs, AttachArgs, MapReadArgs, MapWriteArgs, MapDeleteArgs}
use ebpf_assist.Mcp.Protocol.{ToolCallResult}
use ebpf_assist.Mcp.Tools.Daemon.{ask}
use ebpf_assist.Mcp.Tools.Call.{tool_named, or_unknown}
use ebpf_assist.Mcp.Tools.{daemon_request}
use ebpf_assist.Mcp.Tools.Flags.{DaemonTool, tool_request, tool_reply, tool_reply-is_error, flag}

-- Which request a call of a tool is for, by the tool's name and its decoded arguments.
pub data Calls (o : Outside) (w : o.socket.World) (args : Json) : String → DaemonTool → Type 0 where
  loads :
      (a : LoadArgs) (path : String)
      → o.decoders.load args ≡ ok a
      → o.canonicalize a.path w ≡ ok path
      → a.isolate ≡ false
      → Calls o w args "ebpf_load" (DaemonTool.load path a.program_name)
  unloads :
      (a : IdArgs)
      → o.decoders.id args ≡ ok a
      → Calls o w args "ebpf_unload" (DaemonTool.unload a.id)
  attaches :
      (a : AttachArgs)
      → o.decoders.attach args ≡ ok a
      → Calls o w args "ebpf_attach" (DaemonTool.attach a.id a.target)
  detaches :
      (a : IdArgs)
      → o.decoders.id args ≡ ok a
      → Calls o w args "ebpf_detach" (DaemonTool.detach a.id)
  lists : Calls o w args "ebpf_list" DaemonTool.list
  asks_status : Calls o w args "ebpf_status" DaemonTool.status
  unlocks : Calls o w args "ebpf_unlock" DaemonTool.unlock
  lists_maps :
      (a : IdArgs)
      → o.decoders.id args ≡ ok a
      → Calls o w args "ebpf_map_list" (DaemonTool.map_list a.id)
  reads :
      (a : MapReadArgs)
      → o.decoders.map_read args ≡ ok a
      → Calls o w args "ebpf_map_read" (DaemonTool.map_read a.id a.map_name a.key)
  writes :
      (a : MapWriteArgs)
      → o.decoders.map_write args ≡ ok a
      → Calls o w args "ebpf_map_write" (DaemonTool.map_write a.id a.map_name a.key a.value)
  deletes :
      (a : MapDeleteArgs)
      → o.decoders.map_delete args ≡ ok a
      → Calls o w args "ebpf_map_delete" (DaemonTool.map_delete a.id a.map_name a.key)

-- A called tool asks the daemon for its request, and words the response by `tool_reply`.
tool_named-ask :
    (o : Outside) (w : o.socket.World) (args : Json) {name : String} {t : DaemonTool}
    → Calls o w args name t
    → or_unknown o name (tool_named o name args) w ≡ ask o (tool_request t) (tool_reply o t) w
unfolding tool_named or_unknown tool_reply
tool_named-ask o w args (loads a path decoded real alone) = rw (decoded, real, alone) refl
tool_named-ask o w args (unloads a decoded) = rw decoded refl
tool_named-ask o w args (attaches a decoded) = rw decoded refl
tool_named-ask o w args (detaches a decoded) = rw decoded refl
tool_named-ask o w args lists = refl
tool_named-ask o w args asks_status = refl
tool_named-ask o w args unlocks = refl
tool_named-ask o w args (lists_maps a decoded) = rw decoded refl
tool_named-ask o w args (reads a decoded) = rw decoded refl
tool_named-ask o w args (writes a decoded) = rw decoded refl
tool_named-ask o w args (deletes a decoded) = rw decoded refl

module _ (h : Host) (c : Codec) (k : ClientCodec) (version : String) where
  -- The server beside the daemon: its socket is the daemon's own loop.
  abbrev pub beside_daemon :
      Outside
      → (canonicalize : String → h.World × State h → Result String String)
      → (output : String
          → List String
          → h.World × State h
          → (h.World × State h) × Result String Output)
      → Outside
  beside_daemon o canonicalize output = record {
    socket = daemon_socket h c k version;
    exe_dir = o.exe_dir;
    is_file = o.is_file;
    join = o.join;
    canonicalize = canonicalize;
    output = output;
    decoders = o.decoders;
    parse_value = o.parse_value;
    show = o.show;
    show_text = o.show_text;
    version = o.version;
  }

  module _ (base : Outside) (canonicalize : String → h.World × State h → Result String String)
      (output : String
        → List String
        → h.World × State h
        → (h.World × State h) × Result String Output) where
    abbrev o : Outside
    o = beside_daemon base canonicalize output

    -- If the daemon reads the line that the server sends as the request it was printed from, and the
    -- server reads the daemon's line as the response it was printed from, a call of a tool, by the
    -- tool's name, does to the daemon and its world what the request does that belongs to the name
    -- and the arguments, and its result is marked as an error if and only if the daemon's response is
    -- an error: the tool finds no response unexpected. The
    -- request's line must not be blank, a load must not be isolated, and its path must have a
    -- canonical form.
    pub tool_named-handle_request :
        (s : State h) (w : h.World) (args : Json) (name : String) (t : DaemonTool)
        {line text : String}
        → Calls o (w, s) args name t
        → k.print (tool_request t) ≡ ok line
        → str_eq (c.trim line) "" ≡ false
        → c.parse (c.trim line) ≡ ok (tool_request t)
        → c.print (handle_request h version s (tool_request t) w).2 ≡ ok text
        → k.parse (text <> "\n") ≡ ok (handle_request h version s (tool_request t) w).2
        → (result : ToolCallResult) × (or_unknown o name (tool_named o name args) (w, s) ≡ (
          (
            (handle_request h version s (tool_request t) w).0,
            (handle_request h version s (tool_request t) w).1,
          ),
          ok result,
        ))
          × (result.is_error
              ≡ flag (not (is_error (handle_request h version s (tool_request t) w).2)))
    unfolding daemon_request ask
    tool_named-handle_request s w args name t calls asked words parsed printed read = (
      tool_reply o t (handle_request h version s (tool_request t) w).2,
      tool_named-ask o (w, s) args calls
          ∙ rw
              (asked, exchange-handle h c k version s w (tool_request t) words parsed printed, read)
              refl,
      rw
          (
            tool_reply-is_error o t (handle_request h version s (tool_request t) w).2,
            handle_request-is_answer h version s (tool_request t) w,
          )
          refl,
    )
