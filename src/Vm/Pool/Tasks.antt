-- ===== src/Vm/Pool/Tasks.antt =====
-- crates/ebpf-assist-vm/src/manager.rs, `MicroVmManager`: calls of several tasks at once, between the
-- two locks of the manager. Of the pool only the numbers of VMs are kept. A step of a task runs from
-- one point where it waits, for a lock or for a VM, to the next; a lock that is free is taken and
-- given back within a step where the code does not wait while it holds it. `warm_up` and
-- `shutdown_all` never wait while they hold a lock and are left out.
pub mod Locks
pub mod Deadlock
pub mod Stuck
pub mod Tests
use ebpf_assist.Prelude.{
  ℕ, zero, suc, ◌+◌, ◌≤◌, ◌<◌, Bool, Option, none, some, ◌≡◌, if◌then◌else◌, nat_eq,
}

-- `active_vms` and `warm_pool`: the task that holds each lock, and the number of VMs.
pub record Shared : Type 0 where
  pub active_lock : Option ℕ
  pub warm_lock : Option ℕ
  pub active : ℕ
  pub warm : ℕ

-- Where a task waits. `popped` holds the lock of the warm pool, `counting`, `tallying` and `inside`
-- that of the active VMs.
pub data Pc : Type 0 where
  idle acquiring popped checking counting creating inserting : Pc
  reading tallying entering inside removing reusing resetting pushing : Pc

-- One step of task `i`.
pub data Move (max_total max_warm : ℕ) (i : ℕ) : Shared → Pc → Shared → Pc → Type 0 where
  -- a task calls `acquire`, `stats`, `with_vm_async` or `release`
  call_acquire : {p : Shared} → Move max_total max_warm i p idle p acquiring
  call_stats : {p : Shared} → Move max_total max_warm i p idle p reading
  call_with_vm : {p : Shared} → Move max_total max_warm i p idle p entering
  call_release : {p : Shared} → Move max_total max_warm i p idle p removing
  -- `acquire`
  pop :
      {p : Shared} (n : ℕ)
      → p.warm_lock ≡ none
      → p.warm ≡ suc n
      → Move max_total max_warm i p acquiring (record p { warm_lock = some i; warm = n }) popped
  miss :
      {p : Shared}
      → p.warm_lock ≡ none
      → p.warm ≡ zero
      → Move max_total max_warm i p acquiring p checking
  hand_over :
      {p : Shared}
      → p.active_lock ≡ none
      → Move max_total max_warm i p popped
          (record p { warm_lock = none; active = suc p.active })
          idle
  check :
      {p : Shared}
      → p.active_lock ≡ none
      → Move max_total max_warm i p checking (record p { active_lock = some i }) counting
  exhausted :
      {p : Shared}
      → p.warm_lock ≡ none
      → max_total ≤ p.active + p.warm
      → Move max_total max_warm i p counting (record p { active_lock = none }) idle
  room :
      {p : Shared}
      → p.warm_lock ≡ none
      → p.active + p.warm < max_total
      → Move max_total max_warm i p counting (record p { active_lock = none }) creating
  create_fails : {p : Shared} → Move max_total max_warm i p creating p idle
  created : {p : Shared} → Move max_total max_warm i p creating p inserting
  insert :
      {p : Shared}
      → p.active_lock ≡ none
      → Move max_total max_warm i p inserting (record p { active = suc p.active }) idle
  -- `stats`
  read :
      {p : Shared}
      → p.active_lock ≡ none
      → Move max_total max_warm i p reading (record p { active_lock = some i }) tallying
  tally :
      {p : Shared}
      → p.warm_lock ≡ none
      → Move max_total max_warm i p tallying (record p { active_lock = none }) idle
  -- `with_vm_async`, with a VM of that id and without one
  enter :
      {p : Shared}
      → p.active_lock ≡ none
      → Move max_total max_warm i p entering (record p { active_lock = some i }) inside
  no_vm : {p : Shared} → p.active_lock ≡ none → Move max_total max_warm i p entering p idle
  leave : {p : Shared} → Move max_total max_warm i p inside (record p { active_lock = none }) idle
  -- `release`, with a VM of that id and without one
  remove :
      {p : Shared} (n : ℕ)
      → p.active_lock ≡ none
      → p.active ≡ suc n
      → Move max_total max_warm i p removing (record p { active = n }) reusing
  not_there : {p : Shared} → p.active_lock ≡ none → Move max_total max_warm i p removing p idle
  reuse :
      {p : Shared}
      → p.warm_lock ≡ none
      → p.warm < max_warm
      → Move max_total max_warm i p reusing p resetting
  destroy :
      {p : Shared}
      → p.warm_lock ≡ none
      → max_warm ≤ p.warm
      → Move max_total max_warm i p reusing p idle
  reset_fails : {p : Shared} → Move max_total max_warm i p resetting p idle
  reset : {p : Shared} → Move max_total max_warm i p resetting p pushing
  push :
      {p : Shared}
      → p.warm_lock ≡ none
      → Move max_total max_warm i p pushing (record p { warm = suc p.warm }) idle

pub record Tasks : Type 0 where
  pub shared : Shared
  pub pc : ℕ → Pc

abbrev pub update : (ℕ → Pc) → ℕ → Pc → ℕ → Pc
update pc i b k = if nat_eq k i then b else pc k

pub data Step (max_total max_warm : ℕ) : Tasks → Tasks → Type 0 where
  turn :
      {s : Tasks} (i : ℕ) {p : Shared} {b : Pc}
      → Move max_total max_warm i s.shared (s.pc i) p b
      → Step max_total max_warm s (record { shared = p; pc = update s.pc i b })

pub data Run (max_total max_warm : ℕ) : Tasks → Tasks → Type 0 where
  done : {s : Tasks} → Run max_total max_warm s s
  then_step :
      {s t u : Tasks}
      → Run max_total max_warm s t
      → Step max_total max_warm t u
      → Run max_total max_warm s u

-- A manager with some VMs and no call of it.
abbrev pub at_rest : (active warm : ℕ) → Tasks
at_rest active warm = record {
  shared = record { active_lock = none; warm_lock = none; active = active; warm = warm };
  pc = λ _. idle;
}
