-- ===== src/Daemon/Server/Session.antt =====
-- A client's session: its responses.
use ebpf_assist.Prelude.{
  String, ◌<>◌, List, [], ◌∷◌, map, Result, ok, if◌then◌else◌, str_eq, ◌≡◌, refl, Bool-cases, inl,
  inr,
}
use ebpf_assist.Common.{Request, Response}
use ebpf_assist.Daemon.Host.{Host}
use ebpf_assist.Daemon.Handler.{State, Outcome}
use ebpf_assist.Daemon.Server.{Codec, Conversation, answer, respond, handle_client}

module _ (h : Host) (c : Codec) where
  open h use {World}

  -- The lines that are answered, trimmed.
  abbrev pub spoken : List String → List String
  spoken [] = []
  spoken (line ∷ lines) =
      if str_eq (c.trim line) "" then spoken lines else c.trim line ∷ spoken lines

  abbrev then_answers : Outcome h → (State h → World → List Response) → List Response
  then_answers (w, s, response) rest = response ∷ rest s w

  -- The answers to a list of parsed lines, each in the state that the one before has left.
  abbrev pub answers :
      (version : String) → State h → World → List (Result String Request) → List Response
  answers version s w [] = []
  answers version s w (r ∷ rs) =
      then_answers (answer h c version s r w) λ s' w'. answers version s' w' rs

  respond-written :
      (text : Response → String) (o : Outcome h) (rest : State h → World → Conversation h c)
      (more : State h → World → List Response)
      → ((r : Response) → c.print r ≡ ok (text r))
      → ((s : State h) (w : World) → (rest s w).written ≡ map (λ r. text r <> "\n") (more s w))
      → (respond h c o rest).written ≡ map (λ r. text r <> "\n") (then_answers o more)
  respond-written text (w, s, r) rest more prints same = rw (prints r, same s w) refl

  respond-ended :
      (text : Response → String) (o : Outcome h) (rest : State h → World → Conversation h c)
      → ((r : Response) → c.print r ≡ ok (text r))
      → ((s : State h) (w : World) → (rest s w).ended ≡ ok tt)
      → (respond h c o rest).ended ≡ ok tt
  respond-ended text (w, s, r) rest prints same = rw (prints r, same s w) refl

  -- Where every response can be printed, the loop serves every line, and it writes one line for
  -- each line that is not blank, in their order: the printed answer to what the line parses to.
  pub handle_client-answers :
      (text : Response → String) (version : String) (s : State h) (w : World) (lines : List String)
      → ((r : Response) → c.print r ≡ ok (text r))
      → ((handle_client h c version s w lines).ended ≡ ok tt)
        × ((handle_client h c version s w lines).written
            ≡ map (λ r. text r <> "\n") (answers version s w (map c.parse (spoken lines))))
  unfolding handle_client
  handle_client-answers text version s w [] prints = (refl, refl)
  handle_client-answers text version s w (line ∷ lines) prints =
      elim (Bool-cases (str_eq (c.trim line) "")) [
        | inl blank ↦ rw blank (handle_client-answers text version s w lines prints)
        | inr words ↦ rw words (
          respond-ended text (answer h c version s (c.parse (c.trim line)) w)
              (λ s' w'. handle_client h c version s' w' lines) prints
              (λ s' w'. (handle_client-answers text version s' w' lines prints).0),
          respond-written text (answer h c version s (c.parse (c.trim line)) w)
              (λ s' w'. handle_client h c version s' w' lines)
              (λ s' w'. answers version s' w' (map c.parse (spoken lines))) prints
              (λ s' w'. (handle_client-answers text version s' w' lines prints).1),
        )
      ]
