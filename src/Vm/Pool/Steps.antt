-- ===== src/Vm/Pool/Steps.antt =====
-- The operations of the manager, run alone, as steps under its locks.
use ebpf_assist.Prelude.{string_key}
use ebpf_assist.Table
use ebpf_assist.Vm.Machine.{Machine}
use ebpf_assist.Vm.MicroVm.{MicroVm}
use ebpf_assist.Vm.MicroVm
use ebpf_assist.Vm.Pool.Bounds
