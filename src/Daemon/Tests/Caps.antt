-- ===== src/Daemon/Tests/Caps.antt =====
-- Runs of the capability scopes.
use ebpf_assist.Prelude.{ℕ, true, false, [], ◌∷◌, String, err, refl, ◌≡◌}
use ebpf_assist.Daemon.Io.{Io, pure}
use ebpf_assist.Daemon.Caps.{with_caps}
use ebpf_assist.Daemon.Caps.Scope.{Scoped, with_caps-Scoped, with_caps_refused}
use ebpf_assist.Daemon.Tests.{
  DemoCap-discrete, DemoWorld, bpf, net_admin, demo, host_of, without_net, everything, host_laws,
  demo_state, world_at,
}

abbrev five : Io DemoWorld ℕ
five = pure 5

with_caps-Scoped_example :
    Scoped demo
      (host_laws everything)
      (bpf ∷ net_admin ∷ [])
      five
      (world_at 0 (true, false))
      (demo_state everything (world_at 0 (true, false)))
with_caps-Scoped_example =
    with_caps-Scoped demo (host_laws everything) (bpf ∷ net_admin ∷ []) five
      (world_at 0 (true, false)) (demo_state everything (world_at 0 (true, false))) refl
      (refl, (refl, tt)) (λ v. refl)

with_caps_refused_example :
    (message : String) × (with_caps
        (host_of without_net)
        (bpf ∷ net_admin ∷ [])
        five
        (world_at 0 (true, false))
      ≡ (world_at 0 (true, false), err message))
unfolding host_laws DemoCap-discrete
with_caps_refused_example =
    with_caps_refused (host_of without_net) (host_laws without_net) (bpf ∷ net_admin ∷ []) five
      (world_at 0 (true, false)) (demo_state without_net (world_at 0 (true, false))) net_admin refl
      refl refl
