-- ===== src/Agent/Handler.antt =====
-- crates/ebpf-assist-agent/src/handler.rs: one command of the host. The executor of triggers
-- (trigger.rs) and the reading of the kernel's trace pipe, which run commands and read files of the
-- guest, are functions on the world.
pub mod Keeps
use ebpf_assist.Prelude.{ℕ, ◌-◌, List, [], String, Result, ok, err}
use ebpf_assist.Daemon.Host.{Host}
use ebpf_assist.Vm.Protocol.{GuestCommand, GuestResponse, error_response}
use ebpf_assist.Agent.Loader.{ProgramLoader, LoaderError, display}
use ebpf_assist.Agent.Loader

pub record Tools (World : Type 0) : Type 0 where
  pub execute : (category operation : String) → List String → World → World × Result String String
  pub read_trace_pipe : (max_lines timeout_ms : ℕ) → World → World × List String

module _ (h : Host) (show : ℕ → String) (tools : Tools h.World) where
  open h use {World}

  pub record CommandHandler : Type 0 where
    pub loader : ProgramLoader h show
    pub start_time : ℕ
    pub trace_buffer : List String

  unfoldable pub new : (start_time : ℕ) → CommandHandler
  unfolding Loader.new
  new start_time = record { loader = Loader.new h show; start_time = start_time; trace_buffer = [] }

  abbrev pub Outcome : Type 0
  Outcome = World × CommandHandler × GuestResponse

  -- The response to a call of the loader
  abbrev pub answer :
      {A : Type 0}
      → CommandHandler
      → (A → GuestResponse)
      → World × ProgramLoader h show × Result LoaderError A
      → Outcome
  unfolding display error_response
  answer s reply (w, ld, ok a) = (w, record s { loader = ld }, reply a)
  answer s reply (w, ld, err e) = (w, record s { loader = ld }, error_response (display e))

  abbrev pub answer_trigger : CommandHandler → World × Result String String → Outcome
  unfolding error_response
  answer_trigger s (w, ok output) = (w, s, GuestResponse.triggered output)
  answer_trigger s (w, err e) = (w, s, error_response e)

  unfoldable pub handle : CommandHandler → GuestCommand → World → Outcome
  unfolding answer answer_trigger Loader.load Loader.attach Loader.detach Loader.unload
      Loader.unload_all Loader.list_maps
  handle s GuestCommand.ping w = (w, s, GuestResponse.pong)
  handle s GuestCommand.status w =
      (w, s, GuestResponse.status_is (h.now w - s.start_time) (Loader.count h show s.loader))
  handle s (GuestCommand.load bytes name) w =
      answer s (λ r. GuestResponse.loaded r.0 r.1) (Loader.load h show s.loader bytes name w)
  handle s (GuestCommand.unload id) w =
      answer s (λ r. GuestResponse.unloaded) (Loader.unload h show s.loader id w)
  handle s (GuestCommand.attach id target) w =
      answer s (λ r. GuestResponse.attached) (Loader.attach h show s.loader id target w)
  handle s (GuestCommand.detach id) w =
      answer s (λ r. GuestResponse.detached) (Loader.detach h show s.loader id w)
  handle s GuestCommand.list_all w = (w, s, GuestResponse.programs (Loader.list h show s.loader))
  handle s (GuestCommand.trigger category operation args) w =
      answer_trigger s (tools.execute category operation args w)
  handle s (GuestCommand.read_trace lines timeout_ms) w =
      let (w', output) = tools.read_trace_pipe lines timeout_ms w in
      (w', s, GuestResponse.trace_output output)
  handle s (GuestCommand.map_list id) w =
      answer s GuestResponse.maps (w, s.loader, Loader.list_maps h show s.loader id w)
  handle s (GuestCommand.map_read id name key) w = (w, s, GuestResponse.map_entries [])
  handle s (GuestCommand.map_write id name key value) w = (w, s, GuestResponse.map_written)
  handle s (GuestCommand.map_delete id name key) w = (w, s, GuestResponse.map_deleted)
  handle s GuestCommand.unload_all w =
      let (w', ld, n) = Loader.unload_all h show s.loader w in
      (w', record s { loader = ld }, GuestResponse.unloaded_all n)
  handle s GuestCommand.reset w =
      let (w', ld, n) = Loader.unload_all h show s.loader w in
      (w', record s { loader = ld; trace_buffer = [] }, GuestResponse.reset_complete)
  handle s GuestCommand.shutdown w = (w, s, GuestResponse.shutting_down)
