-- ===== src/Mcp/Tools/Names.antt =====
-- The tools that the server lists and the tools that it runs.
use ebpf_assist.Prelude.{
  Bool, true, false, ◌||◌, String, List, [], ◌∷◌, Option, none, some, if◌then◌else◌, str_eq, ◌≡◌,
  refl,
}
use ebpf_assist.Json.{Json}
use ebpf_assist.Mcp.{Outside}
use ebpf_assist.Mcp.Protocol.{ToolDefinition}
use ebpf_assist.Mcp.Schemas.{tools}
use ebpf_assist.Mcp.Tools.Call.{tool_named}

abbrev pub is_some : {A : Type 0} → Option A → Bool
is_some none = false
is_some (some a) = true

-- A tool of this name is in the list.
abbrev pub is_listed : String → List ToolDefinition → Bool
is_listed name [] = false
is_listed name (t ∷ ts) = str_eq name t.name || is_listed name ts

is_some-if :
    {A : Type 0} (b : Bool) (a : A) (rest : Option A)
    → is_some (if b then some a else rest) ≡ (b || is_some rest)
is_some-if true a rest = refl
is_some-if false a rest = refl

-- The server runs a tool under a name if and only if it lists a tool of that name, whatever the
-- arguments.
pub tool_named-is_listed :
    (o : Outside) (name : String) (args : Json)
    → is_some (tool_named o name args) ≡ is_listed name tools
unfolding tool_named tools
tool_named-is_listed o name args = simp is_some-if
