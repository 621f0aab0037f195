-- ===== src/Daemon/Handler/Codes.antt =====
-- The error codes that clients see.
use ebpf_assist.Prelude.{
  ℕ, ℕ_eq, ◌<>◌, Option-cases, ℕ, String, Option, none, some, err, ok_or, if◌then◌else◌, ◌≡◌, refl,
  ap, ◌∙◌, true, Bool-cases, inl, inr, contains, contains_of_prefix, is_prefix-append,
}
use ebpf_assist.Common.{
  ProgramType, PolicyAction, allow, warn, deny, default_policy, debug_type, policy_reason, Text,
  ErrorCode, policy_violation, invalid_key, invalid_value, internal, program_not_found,
  not_attached, Request, Response,
}
use text.Mathlib.TextLemmas.{append_assoc}
use ebpf_assist.Table
use ebpf_assist.Daemon.Host.{Host}
use ebpf_assist.Daemon.Keys.{parse_key, parse_value, parse_index, has_hex_prefix}
use ebpf_assist.Daemon.Loader.{policy_check, LoadedProgram}
use ebpf_assist.Daemon.Loader
use ebpf_assist.Daemon.Handler.{error_code, State, handle_request}

-- Every refusal by the policy, whatever the program's type, reaches the client as a policy violation.
pub policy_check-code :
    (ty : ProgramType) (message : String)
    → policy_check ty (default_policy ty) ≡ err message
    → error_code message ≡ policy_violation
unfolding policy_check
policy_check-code ty message e = go (default_policy ty) e
  where
    rest : String
    rest = debug_type ty <> (" programs are not allowed. " <> policy_reason ty)

    refused : String
    refused = "Policy violation: " <> rest

    violation : contains refused "Policy violation" ≡ true
    violation =
        ap (λ m. contains m "Policy violation") (append_assoc "Policy violation" ": " rest)
        ∙ contains_of_prefix ("Policy violation" <> (": " <> rest)) "Policy violation"
            (is_prefix-append "Policy violation" (": " <> rest))

    go :
        (action : PolicyAction)
        → policy_check ty action ≡ err message
        → error_code message ≡ policy_violation
    go allow e' = cc
    go warn e' = cc
    go deny e' =
        let same : refused ≡ message = cc in rw (← same) (unfold error_code in rw violation)

ok_or-code :
    {A : Type 0} (o : Option A) (text message : String) (code : ErrorCode)
    → error_code text ≡ code
    → ok_or o text ≡ err message
    → error_code message ≡ code
ok_or-code none text message code c e = let same : text ≡ message = cc in rw (← same) c
ok_or-code (some a) text message code c e = cc

-- A key or a value that cannot be parsed has a code of its own, except that a bad index of an array
-- map is reported as an internal error.
pub parse-codes :
    (text : Text) (message : String)
    → (parse_key text ≡ err message → error_code message ≡ invalid_key)
      × (parse_value text ≡ err message → error_code message ≡ invalid_value)
      × (parse_index text ≡ err message → error_code message ≡ internal)
unfolding parse_key parse_value parse_index error_code
parse-codes text message = elim (Bool-cases (has_hex_prefix text)) [
  | inl hex ↦ (
    λ e. ok_or-code _ "Invalid hex key" message invalid_key refl (rw hex at e),
    λ e. ok_or-code _ "Invalid hex value" message invalid_value refl (rw hex at e),
    λ e. ok_or-code _ _ message internal refl e,
  )
  | inr plain ↦ (
    λ e. ok_or-code _ "Invalid key" message invalid_key refl (rw plain at e),
    λ e. ok_or-code _ "Invalid value" message invalid_value refl (rw plain at e),
    λ e. ok_or-code _ _ message internal refl e,
  )
]

module _ (h : Host) where
  abbrev pub detach_answer : ℕ → Option (LoadedProgram h) → Response
  detach_answer id none = Response.error "Program not found" program_not_found
  detach_answer id (some p) =
      if p.info.attached
      then Response.detached id
      else Response.error "Program is not attached" not_attached

  abbrev pub unload_answer : ℕ → Option (LoadedProgram h) → Response
  unload_answer id none = Response.error "Program not found" program_not_found
  unload_answer id (some p) = Response.unloaded id

  -- The answers to `Detach` and to `Unload` depend on the entry of the program alone: an unknown id
  -- is reported as such, a program that is not attached cannot be detached, all else succeeds.
  pub detach-unload_responses :
      (version : String) (s : State h) (id : ℕ) (w : h.World)
      → ((handle_request h version s (Request.detach id) w).2
          ≡ detach_answer id (Table.get s.loader.programs id))
        × ((handle_request h version s (Request.unload id) w).2
            ≡ unload_answer id (Table.get s.loader.programs id))
  unfolding handle_request Loader.detach Loader.unload error_code
  detach-unload_responses version s id w = elim (Option-cases (Table.get s.loader.programs id)) [
    | inl missing ↦ (rw missing, rw missing)
    | inr (p, found) ↦ elim (Bool-cases p.info.attached) [
      | inl busy ↦ (rw (found, busy), rw found)
      | inr idle ↦ (rw (found, idle), rw found)
    ]
  ]
