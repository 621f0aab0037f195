-- ===== src/Vm/Firecracker/Boot.antt =====
-- The calls of a boot, and the wait for the API's socket.
use ebpf_assist.Prelude.{sym, ap, String, List, [], ◌∷◌, ◌++◌, Result, ok, err, ◌≡◌, refl}
use ebpf_assist.Json.{Json}
use ebpf_assist.Vm.Protocol.{VmError}
use ebpf_assist.Vm.Firecracker.{
  boot, Os, FirecrackerInstance, and_then, call, boot_source, root_drive, machine_config,
  vsock_device, action,
}

module _ (o : Os) where
  open o use {World}

  -- A run of calls of the API, each of them answered with a success.
  pub data Accepted (i : FirecrackerInstance o)
      : List (String × Json) → World → World → Type 0 where
    none_sent : {w : World} → Accepted i [] w w
    sent :
        {w : World} {w' : World} {body : String × Json} {rest : List (String × Json)}
        → (call o i body w).1 ≡ ok tt
        → Accepted i rest (call o i body w).0 w'
        → Accepted i (body ∷ rest) w w'

  -- What has happened when a sequence of calls ends: all were accepted, or one was not, and it was
  -- the last one sent.
  pub data Ended (i : FirecrackerInstance o) (calls : List (String × Json)) (w : World)
      : World × Result VmError (Unit {0}) → Type 0 where
    all_accepted : {w' : World} → Accepted i calls w w' → Ended i calls w (w', ok tt)
    refused :
        {w' : World} {e : VmError} (before : List (String × Json)) (body : String × Json)
        (after : List (String × Json))
        → calls ≡ before ++ (body ∷ after)
        → Accepted i before w w'
        → (call o i body w').1 ≡ err e
        → Ended i calls w ((call o i body w').0, err e)

  -- The calls of a boot, in the order in which Firecracker needs them.
  abbrev pub boot_calls : FirecrackerInstance o → List (String × Json)
  unfolding boot_source root_drive machine_config vsock_device action
  boot_calls i =
      boot_source o i
      ∷ root_drive o i
      ∷ machine_config o i
      ∷ vsock_device o i
      ∷ action o "InstanceStart"
      ∷ []

  abbrev send_all :
      FirecrackerInstance o → List (String × Json) → World → World × Result VmError (Unit {0})
  send_all i [] w = (w, ok tt)
  send_all i (body ∷ rest) w = and_then o (call o i body w) λ _ w'. send_all i rest w'

  step-Ended :
      (i : FirecrackerInstance o) (body : String × Json) (rest : List (String × Json)) (w : World)
      {out : World × Result VmError (Unit {0})}
      → (call o i body w).1 ≡ ok tt
      → Ended i rest (call o i body w).0 out
      → Ended i (body ∷ rest) w out
  step-Ended i body rest w accepted (all_accepted all) = all_accepted (sent accepted all)
  step-Ended i body rest w accepted (refused before bad after parts all e) =
      refused (body ∷ before) bad after (ap (λ calls. body ∷ calls) parts) (sent accepted all) e

  first-Ended :
      (i : FirecrackerInstance o) (body : String × Json) (rest : List (String × Json)) (w : World)
      (r : World × Result VmError (Unit {0}))
      → call o i body w ≡ r
      → ((w' : World) → Ended i rest w' (send_all i rest w'))
      → Ended i (body ∷ rest) w (and_then o r λ _ w'. send_all i rest w')
  first-Ended i body rest w (w', ok u) same more =
      step-Ended i body rest w (rw same refl) (rw same (more w'))
  first-Ended i body rest w (w', err e) same more =
      let at : (call o i body w).0 ≡ w' = ap (λ x. x.0) same in
      rw (sym at) (refused [] body rest refl none_sent (rw same refl))

  send_all-Ended :
      (i : FirecrackerInstance o) (calls : List (String × Json)) (w : World)
      → Ended i calls w (send_all i calls w)
  send_all-Ended i [] w = all_accepted none_sent
  send_all-Ended i (body ∷ rest) w =
      first-Ended i body rest w (call o i body w) refl λ w'. send_all-Ended i rest w'

  -- A boot sends the boot source, the root drive, the machine's configuration and the vsock device
  -- and then starts the instance, each call after the one before was answered with a success. It
  -- succeeds when all five were, and otherwise fails with the error of the first that was not, after
  -- which nothing is sent.
  pub boot-Ended : (i : FirecrackerInstance o) (w : World) → Ended i (boot_calls i) w (boot o i w)
  unfolding boot boot_calls
  boot-Ended i w = send_all-Ended i (boot_calls i) w
