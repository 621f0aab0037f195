-- ===== src/Mcp/Process/Compiled.antt =====
-- The tool `ebpf_compile` on the output of the command `compile` that it runs.
use ebpf_assist.Prelude.{
  String, ◌<>◌, List, [], ◌∷◌, some, true, contains, contains-append, contains-append_left,
  contains-append_right, All, ◌≡◌, refl, ap, str_eq, Bool-cases, string_key, subst, if◌then◌else◌,
  contains_of_prefix, is_prefix_refl, is_prefix-append, inl, inr,
}
use ebpf_assist.Json.{list_of, string_items, get, get_field}
use ebpf_assist.Cli.Output.{join}
use ebpf_assist.Cli.Compile.{CompileResult}
use ebpf_assist.Cli.Compile.Run.{compile_document}
use ebpf_assist.Mcp.{Outside, Output}
use ebpf_assist.Mcp.Protocol.{text}
use ebpf_assist.Mcp.Process.Programs.{all_strings, compile_message, compile_result}

all_strings-string_items : (ss : List String) → all_strings (list_of (string_items ss)) ≡ ss
all_strings-string_items [] = refl
all_strings-string_items (s ∷ ss) = ap (λ rest. s ∷ rest) (all_strings-string_items ss)

All_map :
    {A : Type 0} {P Q : A → Type 0} (xs : List A) → ((a : A) → P a → Q a) → All P xs → All Q xs
All_map [] f ps = tt
All_map (x ∷ xs) f (p, ps) = (f x p, All_map xs f ps)

-- The text holds each of these texts.
abbrev pub Holds : (text : String) → List String → Type 0
Holds text = All (λ s. contains text s ≡ true)

join-Holds : (sep : String) (ss : List String) → Holds (join sep ss) ss
unfolding join
join-Holds sep [] = tt
join-Holds sep (s ∷ []) = (contains_of_prefix s s (is_prefix_refl s), tt)
join-Holds sep (s ∷ t ∷ rest) =
    let later = join sep (t ∷ rest) in
    (
      contains_of_prefix (s <> (sep <> later)) s (is_prefix-append s (sep <> later)),
      All_map (t ∷ rest)
          (λ u held.
            contains-append_right s (sep <> later) u (contains-append_right sep later u held))
          (join-Holds sep (t ∷ rest)),
    )

-- The part of the message on warnings, whatever stands after it.
warned-Holds :
    (back : String) (ss : List String)
    → Holds
        ((if str_eq (join "\n" ss) "" then "" else "\n\nWarnings:\n" <> join "\n" ss) <> back)
        ss
warned-Holds back ss = elim (Bool-cases (str_eq (join "\n" ss) "")) [
  | inl blank ↦ rw blank (
      All_map ss (λ s held. contains-append_left "" back s held)
        (subst (λ t. Holds t ss) ((string_key.beq_iff (join "\n" ss) "").0 blank)
          (join-Holds "\n" ss)))
  | inr words ↦ rw words (
      All_map ss
        (λ s held.
          contains-append_left ("\n\nWarnings:\n" <> join "\n" ss) back s
            (contains-append_right "\n\nWarnings:\n" (join "\n" ss) s held))
        (join-Holds "\n" ss))
]

-- Where the output of the process reads as the JSON document that the command prints for a
-- compilation that succeeded, the tool answers with a text, not marked as an error, that holds the
-- path of the object file and every warning.
pub compile_result-compile_document :
    (o : Outside) (out : Output) (result : CompileResult)
    → out.is_success ≡ true
    → o.parse_value out.stdout ≡ some (compile_document result)
    → (message : String) × (compile_result o out ≡ text message)
      × Holds message (result.output_path ∷ result.warnings)
unfolding compile_result get get_field join
compile_result-compile_document o out result good printed = (
  compile_message result.output_path (join "\n" result.warnings),
  rw (good, printed, all_strings-string_items result.warnings) refl,
  (
    contains-append "Compiled successfully:\n  Output: " result.output_path _,
    All_map result.warnings
        (λ s held.
          contains-append_right "Compiled successfully:\n  Output: " _ s
            (contains-append_right result.output_path _ s held))
        (warned-Holds _ result.warnings),
  ),
)
