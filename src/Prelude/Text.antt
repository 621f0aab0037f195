-- ===== src/Prelude/Text.antt =====
-- `str::contains` on a text, and its laws for concatenated messages.
use Prim.Native.Nat.{ℕ}
use Prim.Native.Char.{Char, code}
use Prim.Native.String.{String, [], ◌∷◌, ◌++◌}
use mathlib.Core.Path.{◌≡◌, refl}
use mathlib.Core.Bool.{Bool, true, false, ◌&&◌, ◌||◌}
use mathlib.Core.List.{List}
use mathlib.Core.Option.{Option, none, some}
use native.Mathlib.Omega.{arith}
use text.Mathlib.Text.{◌==◌ as str_eq}
use text.Mathlib.TextEquality.{eq_iff}
use text.Mathlib.TextLemmas.{nil-append, cons-append}
use ebpf_assist.Prelude.Tests.{nat_eq, if◌then◌else◌}

-- `text.starts_with(pat)`
unfoldable pub is_prefix : String → String → Bool
is_prefix [] t = true
is_prefix (c ∷ p) [] = false
is_prefix (c ∷ p) (d ∷ t) = nat_eq (code c) (code d) && is_prefix p t

-- `text.contains(pat)`; the pattern stands second.
unfoldable pub contains : String → String → Bool
unfolding is_prefix
contains [] p = is_prefix p []
contains (c ∷ t) p = is_prefix p (c ∷ t) || contains t p

-- `text.split(sep)`, for a separator of one character
abbrev push_first : Char → List String → List String
push_first c List.[] = List.◌∷◌ (c ∷ []) List.[]
push_first c (List.◌∷◌ s parts) = List.◌∷◌ (c ∷ s) parts

unfoldable pub split : ℕ → String → List String
split sep [] = List.◌∷◌ [] List.[]
split sep (c ∷ t) =
    let rest = split sep t in if nat_eq (code c) sep then List.◌∷◌ [] rest else push_first c rest

pub is_prefix-append : (p t : String) → is_prefix p (p ++ t) ≡ true
unfolding is_prefix
is_prefix-append [] t = refl
is_prefix-append (c ∷ p) t = rw (cons-append c p t) (ground (arith, is_prefix-append p t))

pub contains_of_prefix : (t p : String) → is_prefix p t ≡ true → contains t p ≡ true
unfolding contains
contains_of_prefix [] p h = h
contains_of_prefix (c ∷ t) p h = rw h

-- A message holds a pattern wherever the pattern stands in it.
pub contains-append : (s p t : String) → contains (s ++ (p ++ t)) p ≡ true
unfolding contains
contains-append [] p t = rw nil-append (contains_of_prefix (p ++ t) p (is_prefix-append p t))
contains-append (c ∷ s) p t = rw (cons-append c s (p ++ t)) (ground (arith, contains-append s p t))

-- What a text holds, a longer text that ends with it holds.
pub contains-append_right : (s t p : String) → contains t p ≡ true → contains (s ++ t) p ≡ true
unfolding contains
contains-append_right [] t p held = rw nil-append held
contains-append_right (c ∷ s) t p held =
    rw (cons-append c s t) (ground (arith, contains-append_right s t p held))

pub is_prefix_refl : (p : String) → is_prefix p p ≡ true
unfolding is_prefix
is_prefix_refl [] = refl
is_prefix_refl (c ∷ p) = ground (arith, is_prefix_refl p)

is_prefix-append_left : (p t s : String) → is_prefix p t ≡ true → is_prefix p (t ++ s) ≡ true
unfolding is_prefix
is_prefix-append_left [] t s held = refl
is_prefix-append_left (c ∷ p) [] s held = cc
is_prefix-append_left (c ∷ p) (d ∷ t) s held =
    rw (cons-append d t s) (ground (arith, is_prefix-append_left p t s))

-- What a text holds, a longer text that starts with it holds.
pub contains-append_left : (t s p : String) → contains t p ≡ true → contains (t ++ s) p ≡ true
unfolding contains
contains-append_left [] s p held =
    contains_of_prefix ([] ++ s) p (is_prefix-append_left p [] s held)
contains-append_left (c ∷ t) s p held =
    let starts = rw (cons-append c t s) at (is_prefix-append_left p (c ∷ t) s) in
    rw (cons-append c t s) (ground (arith, contains-append_left t s p, starts))

pub eq_sym : (s t : String) → str_eq s t ≡ str_eq t s
eq_sym s t = ground (arith, eq_iff s t, eq_iff t s)

-- `text.splitn(2, sep)` where it gives two parts
abbrev push_once : Char → Option (String × String) → Option (String × String)
push_once c none = none
push_once c (some (s, t)) = some (c ∷ s, t)

unfoldable pub split_once : ℕ → String → Option (String × String)
split_once sep [] = none
split_once sep (c ∷ t) =
    let rest = split_once sep t in if nat_eq (code c) sep then some ([], t) else push_once c rest
