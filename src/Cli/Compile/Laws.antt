-- ===== src/Cli/Compile/Laws.antt =====
-- What the suggestions keep of clang's errors.
use ebpf_assist.Prelude.{
  String, ◌<>◌, List, [], ◌∷◌, ◌++◌, contains, is_prefix-append, contains_of_prefix,
  contains-append_right, true, ◌≡◌,
}
use ebpf_assist.Cli.Compile.Suggestions.{improve_lines, suggestion}

-- Every line of clang's errors stands in the message that the user reads.
pub improve_lines-append :
    (before : List String) (line : String) (after : List String)
    → contains (improve_lines (before ++ (line ∷ after))) line ≡ true
unfolding improve_lines
improve_lines-append [] line after =
    let rest = "\n" <> (suggestion line <> improve_lines after) in
    contains_of_prefix (line <> rest) line (is_prefix-append line rest)
improve_lines-append (first ∷ before) line after =
    let below = improve_lines (before ++ (line ∷ after)) in
    contains-append_right first ("\n" <> (suggestion first <> below)) line (
      contains-append_right "\n" (suggestion first <> below) line (
        contains-append_right (suggestion first) below line
          (improve_lines-append before line after)))
