-- ===== src/Daemon/Io.antt =====
-- Functions of the daemon that act on the outside world and return `anyhow::Result`. An
-- `anyhow::Error` is its outermost message, which is all that `to_string` shows of it.
use ebpf_assist.Prelude.{String, Result, ok, err, Option, none, some, ok_or, ◌≡◌, refl}

abbrev pub Io : Type 0 → Type 0 → Type 0
Io W A = W → W × Result String A

abbrev pub context_of : {A : Type 0} → String → Result String A → Result String A
context_of message (ok a) = ok a
context_of message (err e) = err message

module _ {W A : Type 0} where
  abbrev pub pure : A → Io W A
  pure a w = (w, ok a)

  -- `anyhow::bail!`
  abbrev pub bail : String → Io W A
  bail message w = (w, err message)

  abbrev pub lift : Result String A → Io W A
  lift r w = (w, r)

  -- `.context(message)`: the new message hides the old one in `to_string`.
  abbrev pub context : String → Io W A → Io W A
  context message m w = ((m w).0, context_of message (m w).1)

  -- `.context(message)` on an `Option`
  abbrev pub some_or : Option A → String → Io W A
  some_or o message w = (w, ok_or o message)

module _ {W A B : Type 0} where
  abbrev pub bind_at : W → Result String A → (A → Io W B) → W × Result String B
  bind_at w (ok a) f = f a w
  bind_at w (err e) f = (w, err e)

  infixl 5 ◌>>=◌ ◌>>◌
  -- `?` and the rest of the body
  abbrev pub ◌>>=◌ : Io W A → (A → Io W B) → Io W B
  ◌>>=◌ m f w = bind_at (m w).0 (m w).1 f

  abbrev pub ◌>>◌ : Io W A → Io W B → Io W B
  m >> k = m >>= λ _. k

-- Inversion of a successful sequence.
pub bind_at-eq-ok :
    {W A B : Type 0} (w : W) (r : Result String A) (f : A → Io W B) {b : B}
    → (bind_at w r f).1 ≡ ok b
    → (a : A) × (r ≡ ok a) × ((f a w).1 ≡ ok b)
bind_at-eq-ok w (ok a) f e = (a, refl, e)
bind_at-eq-ok w (err m) f e = cc

pub >>=-eq-ok :
    {W A B : Type 0} (m : Io W A) (f : A → Io W B) (w : W) {b : B}
    → ((m >>= f) w).1 ≡ ok b
    → (a : A) × ((m w).1 ≡ ok a) × ((f a (m w).0).1 ≡ ok b)
>>=-eq-ok m f w e = bind_at-eq-ok (m w).0 (m w).1 f e

pub some_or-eq-ok :
    {A : Type 0} (o : Option A) (message : String) {a : A} → ok_or o message ≡ ok a → o ≡ some a
some_or-eq-ok none message e = cc
some_or-eq-ok (some b) message e = cc
