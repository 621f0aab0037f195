-- ===== src/Daemon/Loader/Policy.antt =====
-- The policy decides what `load` admits.
use ebpf_assist.Prelude.{String, Option, none, ok, ◌≡◌, ◌≢◌, refl, ◌↔◌}
use ebpf_assist.Common.{ProgramType, PolicyAction, allow, warn, deny, default_policy}
use ebpf_assist.Daemon.Host.{Host}
use ebpf_assist.Daemon.Loader.{policy_check, Loader, LoadResult, load}
use ebpf_assist.Daemon.Loader.Frame.{load-Admitted}

pub policy_check-ne-deny :
    (ty : ProgramType) (action : PolicyAction) {warning : Option String}
    → policy_check ty action ≡ ok warning
    → action ≢ deny
unfolding policy_check
policy_check-ne-deny ty allow e = λ d. cc
policy_check-ne-deny ty warn e = λ d. cc
policy_check-ne-deny ty deny e = λ d. cc

policy_check-warning :
    (ty : ProgramType) (action : PolicyAction) {warning : Option String}
    → policy_check ty action ≡ ok warning
    → (warning ≡ none) ↔ (action ≡ allow)
unfolding policy_check
policy_check-warning ty allow e = (λ _. refl, λ _. cc)
policy_check-warning ty warn e = (λ p. cc, λ p. cc)
policy_check-warning ty deny e = (λ p. cc, λ p. cc)

-- A program that `load` admits has a type that the policy does not deny, and the result carries no
-- warning exactly when the policy allows the type outright.
pub load_policy :
    (h : Host) (ld : Loader h) (path : String) (requested : Option String) (w : h.World)
    (ld' : Loader h) (r : LoadResult h)
    → (load h ld path requested w).1 ≡ ok (ld', r)
    → (default_policy r.info.program_type ≢ deny)
      × ((r.warning ≡ none) ↔ (default_policy r.info.program_type ≡ allow))
load_policy h ld path requested w ld' r e =
    let a = load-Admitted h ld path requested w e in
    rw (a.described) (
      policy_check-ne-deny a.type (default_policy a.type) a.allowed,
      policy_check-warning a.type (default_policy a.type) a.allowed,
    )
