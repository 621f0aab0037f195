-- ===== src/Daemon/Keys/Hex.antt =====
-- Dumped keys and values of hash maps against the parser of requests.
use ebpf_assist.Prelude.{
  String, ℕ, zero, suc, All, All-append, ◌<◌, ◌≤◌, ◌%◌, ◌/◌, false, [], ◌∷◌, some, none, Option, ok,
  ok_or, ◌≡◌, refl, ◌≢◌, arith, nat_eq,
}
use native.Mathlib.Nat.{mod-lt, le_trans}
use ebpf_assist.Common.{Text}
use ebpf_assist.Daemon.Keys.{
  digits_from, from_str_radix, has_hex_prefix, parse_key, parse_value, hex8, hex16, fixed_digits,
  digit_char, u32_bound, u64_bound,
}
use ebpf_assist.Daemon.Keys.Digits.{
  to_digit-digit_char_16, digits_from-fixed_digits, IsReadLow, fixed_digits-IsReadLow,
}

-- Neither a sign nor the letter of a prefix.
abbrev pub IsPlain : ℕ → Type 0
IsPlain c = (nat_eq c b'+' ≡ false) × (nat_eq c b'x' ≡ false) × (nat_eq c b'X' ≡ false)

digit_char-IsPlain : (d : ℕ) → d < 16 → IsPlain (digit_char d)
unfolding digit_char
digit_char-IsPlain d h = ground arith

pub fixed_digits-IsPlain :
    (radix width n : ℕ) → 0 < radix → radix ≤ 16 → All IsPlain (fixed_digits radix width n)
unfolding fixed_digits
fixed_digits-IsPlain radix zero n p q = tt
fixed_digits-IsPlain radix (suc width) n p q =
    All-append IsPlain _ _ (fixed_digits-IsPlain radix width (n / radix) p q)
      (digit_char-IsPlain (n % radix) (le_trans (mod-lt n p) q), tt)

pub from_str_radix-IsPlain :
    (bound radix : ℕ) (cs : Text)
    → cs ≢ []
    → All IsPlain cs
    → from_str_radix bound radix cs ≡ digits_from bound radix (some 0) cs
unfolding from_str_radix
from_str_radix-IsPlain bound radix [] some_digit plain = absurd (some_digit refl)
from_str_radix-IsPlain bound radix (c ∷ []) some_digit plain = rw (plain.0.0)
from_str_radix-IsPlain bound radix (c ∷ d ∷ cs) some_digit plain = rw (plain.0.0)

has_hex_prefix-IsPlain : (cs : Text) → All IsPlain cs → has_hex_prefix cs ≡ false
unfolding has_hex_prefix
has_hex_prefix-IsPlain [] plain = refl
has_hex_prefix-IsPlain (c ∷ []) plain = refl
has_hex_prefix-IsPlain (c ∷ d ∷ cs) plain = ground arith

module _ (bound k : ℕ) where
  abbrev digits8 : All IsPlain (hex8 k)
  unfolding hex8
  digits8 = fixed_digits-IsPlain 16 8 k (omega arith) (omega arith)

  from_str_radix-hex8 :
      (radix : ℕ)
      → from_str_radix bound radix (hex8 k) ≡ digits_from bound radix (some 0) (fixed_digits 16 8 k)
  unfolding hex8
  from_str_radix-hex8 radix = from_str_radix-IsPlain bound radix (hex8 k) (λ e. cc) digits8

  from_str_radix-hex16 :
      (radix : ℕ)
      → from_str_radix bound radix (hex16 k)
        ≡ digits_from bound radix (some 0) (fixed_digits 16 16 k)
  unfolding hex16
  from_str_radix-hex16 radix =
      from_str_radix-IsPlain bound radix (hex16 k) (λ e. cc)
        (fixed_digits-IsPlain 16 16 k (omega arith) (omega arith))

-- A key below 2^32, printed by `{:08x}` and prefixed by `0x`, is read back by `parse_key`.
pub parse_key-hex8 : (k : ℕ) → k < u32_bound → parse_key (b'0' ∷ b'x' ∷ hex8 k) ≡ ok k
unfolding parse_key
parse_key-hex8 k h = rw (
  from_str_radix-hex8 u32_bound k 16,
  digits_from-fixed_digits u32_bound 16 (omega arith) to_digit-digit_char_16 8 k h h,
)

-- A value below 2^64, printed by `{:016x}` and prefixed by `0x`, is read back by `parse_value`.
pub parse_value-hex16 : (v : ℕ) → v < u64_bound → parse_value (b'0' ∷ b'x' ∷ hex16 v) ≡ ok v
unfolding parse_value
parse_value-hex16 v h = rw (
  from_str_radix-hex16 u64_bound v 16,
  digits_from-fixed_digits u64_bound 16 (omega arith) to_digit-digit_char_16 16 v h h,
)

IsReadLow-ne :
    (k : ℕ) (read : Option ℕ)
    → IsReadLow k read
    → 10 ≤ k
    → ok_or {E = String} read "Invalid key" ≢ ok k
IsReadLow-ne k none low h e = cc
IsReadLow-ne k (some m) low h e =
    let same : m ≡ k = ground arith in absurd (omega (arith, low.1 same))

-- A key of ten or more, as the dump of a hash map prints it (`{:08x}`, with no prefix), is not read
-- back by `parse_key`: it is refused, or read as another key.
pub parse_key-hex8_ne : (k : ℕ) → 10 ≤ k → parse_key (hex8 k) ≢ ok k
unfolding parse_key
parse_key-hex8_ne k h =
    rw (has_hex_prefix-IsPlain (hex8 k) (digits8 u32_bound k), from_str_radix-hex8 u32_bound k 10)
      (IsReadLow-ne k _ (fixed_digits-IsReadLow u32_bound 8 k) h)
