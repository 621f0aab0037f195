-- ===== src/Cli/Compile.antt =====
-- crates/ebpf-assist/src/compile.rs, and the commands `compile` and `new` of main.rs. The search path,
-- the file system, clang's process, and `lines`, `to_lowercase` and `set_extension` of the standard
-- library are the fields of `Toolchain`.
pub mod Suggestions
pub mod Templates
pub mod Laws
pub mod Run
use ebpf_assist.Prelude.{
  ℕ, Bool, true, false, String, ◌<>◌, List, [], ◌∷◌, ◌++◌, map, Option, none, some, Result, ok, err,
  if◌then◌else◌, contains, str_eq, split_once,
}
use ebpf_assist.Json.{obj, bool, string, strings}
use ebpf_assist.Daemon.Io.{Io, lift, pure, context, ◌>>=◌}
use ebpf_assist.Cli.Compile.Suggestions.{improve_lines}
use ebpf_assist.Cli.Compile.Templates.{
  TemplateType, kprobe, kretprobe, tracepoint, xdp, raw_tracepoint, generate_template,
}

pub record Toolchain : Type 1 where
  pub World : Type 0
  pub which : String → Option String
  pub is_dir : String → Bool
  pub set_extension : String → String → String
  pub join : String → String → String
  pub lines : String → List String
  pub to_lowercase : String → String
  -- the status of the process, whether it is a success, and its error stream
  pub output : String → List String → World → World × Result String (Bool × String)
  pub write : String → String → World → World × Result String (Unit {0})
  pub show : ℕ → String

pub record CompileOptions : Type 0 where
  pub includes : List String
  pub defines : List (String × Option String)
  pub btf : Bool
  pub opt_level : ℕ
  pub target : String
  pub extra_flags : List String

unfoldable pub default_options : CompileOptions
default_options = record {
  includes = [];
  defines = [];
  btf = true;
  opt_level = 2;
  target = "bpf";
  extra_flags = [];
}

pub record CompileResult : Type 0 where
  pub output_path : String
  pub warnings : List String

abbrev define_flag : String × Option String → String
define_flag (key, some v) = "-D" <> (key <> ("=" <> v))
define_flag (key, none) = "-D" <> key

abbrev include_flags : List String → List String
include_flags [] = []
include_flags (path ∷ paths) = "-I" ∷ path ∷ include_flags paths

-- `filter(|line| line.contains("warning:"))`
unfoldable pub warnings_in : List String → List String
unfolding contains
warnings_in [] = []
warnings_in (line ∷ lines) =
    let rest = warnings_in lines in if contains line "warning:" then line ∷ rest else rest

-- A define of the command line, `KEY` or `KEY=VALUE`.
unfoldable pub parse_define : String → String × Option String
unfolding split_once
parse_define def = elim (split_once b'=' def) [
  | none ↦ (def, none)
  | some (key, value) ↦ (key, some value)
]

module _ (t : Toolchain) where
  open t use {World}

  abbrev first_found : List String → Result String String
  first_found [] =
      err
        "clang not found. Please install clang:\nUbuntu/Debian: sudo apt install clang\nFedora: sudo dnf install clang\nArch: sudo pacman -S clang"
  first_found (name ∷ names) = elim (t.which name) [
    | none ↦ first_found names
    | some path ↦ ok path
  ]

  unfoldable pub find_clang : Result String String
  find_clang = first_found ("clang" ∷ "clang-17" ∷ "clang-16" ∷ "clang-15" ∷ "clang-14" ∷ [])

  unfoldable pub find_bpf_headers : List String
  find_bpf_headers = if t.is_dir "/usr/include" then "/usr/include" ∷ [] else []

  -- The arguments of clang.
  unfoldable pub clang_args : (source output_path : String) → CompileOptions → List String
  unfolding find_bpf_headers
  clang_args source output_path options =
      "-target"
      ∷ options.target
      ∷ ("-O" <> t.show options.opt_level)
      ∷ ((if options.btf then "-g" ∷ [] else [])
          ++ "-c"
            ∷ "-D__BPF_TRACING__"
            ∷ "-D__TARGET_ARCH_x86"
            ∷ (map define_flag options.defines
                ++ (include_flags find_bpf_headers
                    ++ (include_flags options.includes
                        ++ (options.extra_flags ++ source ∷ "-o" ∷ output_path ∷ [])))))

  abbrev path_of : (source : String) → Option String → String
  path_of source none = t.set_extension source "o"
  path_of source (some p) = p

  abbrev judge : (output_path : String) → Bool × String → Result String CompileResult
  unfolding improve_lines warnings_in
  judge output_path (true, stderr) =
      ok (record { output_path = output_path; warnings = warnings_in (t.lines stderr) })
  judge output_path (false, stderr) =
      err ("Compilation failed:\n" <> improve_lines (t.lines stderr))

  unfoldable pub compile :
      (source : String) (output : Option String) → CompileOptions → Io World CompileResult
  unfolding find_clang clang_args judge
  compile source output options = lift find_clang >>= λ clang.
      context ("Failed to run clang: " <> clang)
        (t.output clang (clang_args source (path_of source output) options))
      >>= λ out. lift (judge (path_of source output) out)

  unfoldable pub template_of : String → Result String TemplateType
  template_of s =
      let lower = t.to_lowercase s in
      if str_eq lower "kprobe"
      then ok kprobe
      else if str_eq lower "kretprobe"
      then ok kretprobe
      else if str_eq lower "tracepoint"
      then ok tracepoint
      else if str_eq lower "tp"
      then ok tracepoint
      else if str_eq lower "xdp"
      then ok xdp
      else if str_eq lower "raw_tracepoint"
      then ok raw_tracepoint
      else if str_eq lower "raw_tp"
      then ok raw_tracepoint
      else err (
          "Unknown template type: "
          <> (s <> ". Valid types: kprobe, kretprobe, tracepoint, xdp, raw_tracepoint"))
