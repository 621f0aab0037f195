-- ===== src/Common/Policy.antt =====
-- Decisions about program types and policies.
use ebpf_assist.Common.{ProgramType, PolicyAction}

pub ProgramType-discrete : Discrete ProgramType
ProgramType-discrete = hlevel

pub PolicyAction-discrete : Discrete PolicyAction
PolicyAction-discrete = hlevel
