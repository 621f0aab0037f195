-- ===== src/Agent/Handler/Keeps.antt =====
-- What holds of the agent's programs after any commands, and what a reset leaves.
use ebpf_assist.Prelude.{ℕ, [], String, Result, ok, err, ◌≡◌, refl}
use ebpf_assist.Daemon.Host.{Host}
use ebpf_assist.Vm.Protocol.{GuestCommand, GuestResponse}
use ebpf_assist.Agent.Loader.{ProgramLoader, LoaderError, list, count, unload_all}
use ebpf_assist.Agent.Loader
use ebpf_assist.Agent.Loader.Consistent.{
  IsConsistent, new-IsConsistent, load-IsConsistent, attach-IsConsistent, detach-IsConsistent,
  unload-IsConsistent, unload_all-IsConsistent,
}
use ebpf_assist.Agent.Handler.{Tools, CommandHandler, new, answer, answer_trigger, handle}

module _ (h : Host) (show : ℕ → String) (tools : Tools h.World) where
  open h use {World}

  -- A state of the handler after some commands, each in a world of its own.
  pub data Served : CommandHandler h show tools → Type 0 where
    started : (start_time : ℕ) → Served (new h show tools start_time)
    handled :
        (s : CommandHandler h show tools) (command : GuestCommand) (w : World)
        → Served s
        → Served (handle h show tools s command w).1

  answer-loader :
      {A : Type 0} (s : CommandHandler h show tools) (reply : A → GuestResponse)
      (q : World × ProgramLoader h show × Result LoaderError A)
      → (answer h show tools s reply q).1.loader ≡ q.1
  unfolding answer
  answer-loader s reply (w, ld, ok a) = refl
  answer-loader s reply (w, ld, err e) = refl

  answer_trigger-state :
      (s : CommandHandler h show tools) (q : World × Result String String)
      → (answer_trigger h show tools s q).1 ≡ s
  unfolding answer_trigger
  answer_trigger-state s (w, ok output) = refl
  answer_trigger-state s (w, err e) = refl

  handle-IsConsistent :
      (s : CommandHandler h show tools) (command : GuestCommand) (w : World)
      → IsConsistent h show s.loader
      → IsConsistent h show (handle h show tools s command w).1.loader
  unfolding handle
  handle-IsConsistent s (GuestCommand.load bytes name) w k =
      rw (answer-loader) (load-IsConsistent h show s.loader bytes name w k)
  handle-IsConsistent s (GuestCommand.unload id) w k =
      rw (answer-loader) (unload-IsConsistent h show s.loader id w k)
  handle-IsConsistent s (GuestCommand.attach id target) w k =
      rw (answer-loader) (attach-IsConsistent h show s.loader id target w k)
  handle-IsConsistent s (GuestCommand.detach id) w k =
      rw (answer-loader) (detach-IsConsistent h show s.loader id w k)
  handle-IsConsistent s (GuestCommand.trigger category operation args) w k =
      rw (answer_trigger-state) k
  handle-IsConsistent s (GuestCommand.map_list id) w k = rw (answer-loader) k
  handle-IsConsistent s GuestCommand.unload_all w k = unload_all-IsConsistent h show s.loader w
  handle-IsConsistent s GuestCommand.reset w k = unload_all-IsConsistent h show s.loader w
  handle-IsConsistent s _ w k = k

  -- After any commands every program of the agent is filed under its own id, the description that
  -- the host reads has the same id, mark and attach point as the entry, and a program is marked
  -- attached exactly when it has an attach point.
  pub Served-IsConsistent :
      (s : CommandHandler h show tools) → Served s → IsConsistent h show s.loader
  unfolding new
  Served-IsConsistent _ (started start_time) = new-IsConsistent h show
  Served-IsConsistent _ (handled s command w before) =
      handle-IsConsistent s command w (Served-IsConsistent s before)

  -- What is left of the programs of an agent, as a later list and a later status show it.
  pub record IsCleared (s : CommandHandler h show tools) (w : World) : Type 0 where
    pub listed : (handle h show tools s GuestCommand.list_all w).2 ≡ GuestResponse.programs []
    pub counted :
        (uptime : ℕ) × ((handle h show tools s GuestCommand.status w).2
          ≡ GuestResponse.status_is uptime 0)

  -- After a reset, and after an unload of all programs, a list shows no program and a status counts
  -- none; the unload tells the number of programs that the status before it has counted; and the
  -- next program gets an id that follows those given before.
  pub handle_clears :
      (s : CommandHandler h show tools) (w v : World)
      → IsCleared (handle h show tools s GuestCommand.reset w).1 v
        × IsCleared (handle h show tools s GuestCommand.unload_all w).1 v
        × ((handle h show tools s GuestCommand.unload_all w).2
            ≡ GuestResponse.unloaded_all (Loader.count h show s.loader))
        × ((handle h show tools s GuestCommand.reset w).1.loader.next_id ≡ s.loader.next_id)
  unfolding handle list count unload_all
  handle_clears s w v = (
    record { listed = refl; counted = (_, refl) },
    record { listed = refl; counted = (_, refl) },
    refl,
    refl,
  )
