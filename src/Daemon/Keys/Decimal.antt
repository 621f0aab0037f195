-- ===== src/Daemon/Keys/Decimal.antt =====
-- The indices of array maps: printed by `to_string`, read by `parse`.
use ebpf_assist.Prelude.{
  ℕ, ◌<◌, [], ◌∷◌, some, ok, ◌≡◌, refl, ◌≢◌, arith, nat_eq, nat_eq_iff, Bool-cases, inl, inr, All,
  ◌∙◌,
}
use ebpf_assist.Common.{Text}
use ebpf_assist.Daemon.Keys.{
  digits_from, to_digit, push_digit, parse_index, to_string, strip_zeros, fixed_digits, u32_bound,
}
use ebpf_assist.Daemon.Keys.Digits.{to_digit-digit_char_10, digits_from-fixed_digits}
use ebpf_assist.Daemon.Keys.Hex.{IsPlain, fixed_digits-IsPlain, from_str_radix-IsPlain}

-- A leading zero changes nothing that is read.
digits_from-strip_zeros :
    (cs : Text)
    → digits_from u32_bound 10 (some 0) (strip_zeros cs) ≡ digits_from u32_bound 10 (some 0) cs
unfolding strip_zeros
digits_from-strip_zeros [] = refl
digits_from-strip_zeros (c ∷ []) = refl
digits_from-strip_zeros (c ∷ d ∷ cs) = elim (Bool-cases (nat_eq c b'0')) [
  | inl leading ↦ rw leading (
      digits_from-strip_zeros (d ∷ cs)
      ∙ rw ((nat_eq_iff c b'0').0 leading) (unfold digits_from push_digit to_digit in refl))
  | inr other ↦ rw other
]

strip_zeros-IsPlain : (cs : Text) → All IsPlain cs → All IsPlain (strip_zeros cs)
unfolding strip_zeros
strip_zeros-IsPlain [] plain = tt
strip_zeros-IsPlain (c ∷ []) plain = plain
strip_zeros-IsPlain (c ∷ d ∷ cs) plain = elim (Bool-cases (nat_eq c b'0')) [
  | inl leading ↦ rw (leading, strip_zeros) (strip_zeros-IsPlain (d ∷ cs) plain.1)
  | inr other ↦ rw (other, strip_zeros) plain
]

strip_zeros-ne-nil : (cs : Text) → cs ≢ [] → strip_zeros cs ≢ []
unfolding strip_zeros
strip_zeros-ne-nil [] some_digit = some_digit
strip_zeros-ne-nil (c ∷ []) some_digit = some_digit
strip_zeros-ne-nil (c ∷ d ∷ cs) some_digit = elim (Bool-cases (nat_eq c b'0')) [
  | inl leading ↦ rw (leading, strip_zeros) (strip_zeros-ne-nil (d ∷ cs) (λ e. cc))
  | inr other ↦ rw (other, strip_zeros) some_digit
]

to_string-IsPlain : (i : ℕ) → All IsPlain (to_string i)
unfolding to_string
to_string-IsPlain i =
    strip_zeros-IsPlain (fixed_digits 10 10 i)
      (fixed_digits-IsPlain 10 10 i (omega arith) (omega arith))

to_string-ne-nil : (i : ℕ) → to_string i ≢ []
unfolding to_string
to_string-ne-nil i = strip_zeros-ne-nil (fixed_digits 10 10 i) (unfold fixed_digits in λ e. cc)

-- An index below 2^32 of an array entry, as the dump prints it, is read back by the requests that
-- name it.
pub parse_index-to_string : (i : ℕ) → i < u32_bound → parse_index (to_string i) ≡ ok i
unfolding parse_index
parse_index-to_string i h =
    rw
      (from_str_radix-IsPlain u32_bound 10 (to_string i) (to_string-ne-nil i) (to_string-IsPlain i))
      (unfold to_string in
        rw (
          digits_from-strip_zeros,
          digits_from-fixed_digits u32_bound 10 (omega arith) to_digit-digit_char_10 10 i
              (omega arith) h,
        ))
