-- ===== src/Vm/Pool/Tasks/Tests.antt =====
-- Schedules of calls of the pool.
use ebpf_assist.Prelude.{◌≡◌, ◌⊎◌}
use ebpf_assist.Vm.Pool.Tasks.{
  Tasks, Run, turn, done, then_step, at_rest, update, idle, acquiring, reading, call_acquire,
  call_stats,
}
use ebpf_assist.Vm.Pool.Tasks.Deadlock.{SomeMoves, Crossed, Run-progress}
use ebpf_assist.Vm.Pool.Tasks.Stuck.{
  IsBlocked, crossing, acquire-stats_deadlock, acquires-above_limit,
}

abbrev called : Tasks
called = record (at_rest 0 1) { pc = update (λ _. idle) 0 acquiring }

Run-progress_example : SomeMoves 4 2 called ⊎ Crossed called
Run-progress_example =
    Run-progress 4 2 0 1 called 0 (then_step done (turn 0 call_acquire)) (λ e. cc)

-- A third task asks for statistics, too.
abbrev crowded : Tasks
crowded = record (crossing 4 2 0 1) { pc = update (crossing 4 2 0 1).pc 2 reading }

acquire-stats_deadlock_example : Run 4 2 (at_rest 0 2) (crossing 4 2 0 1) × IsBlocked crowded
unfolding crossing
acquire-stats_deadlock_example =
    acquire-stats_deadlock 4 2 0 1 crowded (then_step done (turn 2 call_stats))

acquires-above_limit_example :
    (s : Tasks) × Run 1 2 (at_rest 0 0) s
    × (s.shared.active ≡ 2)
    × (s.pc 0 ≡ idle)
    × (s.pc 1 ≡ idle)
acquires-above_limit_example = acquires-above_limit 0 2
