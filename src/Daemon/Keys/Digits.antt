-- ===== src/Daemon/Keys/Digits.antt =====
-- The parser reads back the digits that the formatter writes, in either radix.
use ebpf_assist.Prelude.{
  ℕ, zero, suc, ◌+◌, ◌*◌, ◌/◌, ◌%◌, ◌^◌, ◌<◌, ◌≤◌, [], ◌∷◌, ◌++◌, Option, none, some, ◌≡◌, refl,
  arith, Bool-cases, inl, inr, ltb, if◌then◌else◌,
}
use native.Mathlib.Nat.{pow-suc, pow-zero, mod-lt, div-add-mod', div-lt_iff_lt-mul, div-le_self}
use ebpf_assist.Common.{Text}
use ebpf_assist.Daemon.Keys.{to_digit, push_digit, digits_from, digit_char, fixed_digits}

pub to_digit-digit_char_16 : (d : ℕ) → d < 16 → to_digit 16 (digit_char d) ≡ some d
unfolding to_digit digit_char
to_digit-digit_char_16 d h = ground arith

pub to_digit-digit_char_10 : (d : ℕ) → d < 10 → to_digit 10 (digit_char d) ≡ some d
unfolding to_digit digit_char
to_digit-digit_char_10 d h = ground arith

pub digits_from-append :
    (bound radix : ℕ) (acc : Option ℕ) (xs ys : Text)
    → digits_from bound radix acc (xs ++ ys)
      ≡ digits_from bound radix (digits_from bound radix acc xs) ys
unfolding digits_from
digits_from-append bound radix none xs [] = refl
digits_from-append bound radix none xs (y ∷ ys) = refl
digits_from-append bound radix (some acc) [] ys = refl
digits_from-append bound radix (some acc) (x ∷ xs) ys =
    digits_from-append bound radix (push_digit bound radix acc (to_digit radix x)) xs ys

digits_from-nil : (bound radix : ℕ) (acc : Option ℕ) → digits_from bound radix acc [] ≡ acc
unfolding digits_from
digits_from-nil bound radix none = refl
digits_from-nil bound radix (some a) = refl

pub digits_from_last :
    (bound radix acc c : ℕ)
    → digits_from bound radix (some acc) (c ∷ []) ≡ push_digit bound radix acc (to_digit radix c)
digits_from_last bound radix acc c =
    unfold digits_from in
    digits_from-nil bound radix (push_digit bound radix acc (to_digit radix c))

-- For a radix whose digits are read back.
module _ (bound radix : ℕ) (some_radix : 0 < radix)
    (reads : (d : ℕ) → d < radix → to_digit radix (digit_char d) ≡ some d) where
  pub digits_from-fixed_digits :
      (width n : ℕ)
      → n < radix ^ width
      → n < bound
      → digits_from bound radix (some 0) (fixed_digits radix width n) ≡ some n
  unfolding fixed_digits
  digits_from-fixed_digits zero n h k =
      let small : n ≡ 0 = omega (arith, pow-zero radix) in
      rw (small) (digits_from-nil bound radix (some 0))
  digits_from-fixed_digits (suc width) n h k =
      rw
        (digits_from-append bound radix (some 0) (fixed_digits radix width (n / radix))
          (digit_char (n % radix) ∷ []))
        (rw (digits_from-fixed_digits width (n / radix) fits (omega (arith, div-le_self n radix))) (
          rw (digits_from_last bound radix, reads (n % radix) (mod-lt n some_radix))
            (unfold push_digit in ground (arith, div-add-mod' n radix))))
    where
      fits : n / radix < radix ^ width
      fits = (div-lt_iff_lt-mul some_radix).1 (rw pow-suc at h)

-- A digit in lower-case hexadecimal, read in decimal.
to_digit_10-digit_char :
    (d : ℕ) → d < 16 → to_digit 10 (digit_char d) ≡ (if ltb d 10 then some d else none)
unfolding to_digit digit_char
to_digit_10-digit_char d h = ground arith

-- Hexadecimal digits read in decimal give no more than the number, and the number itself only if
-- it is below ten.
abbrev pub IsReadLow : ℕ → Option ℕ → Type 0
IsReadLow n none = Unit {0}
IsReadLow n (some m) = (m ≤ n) × (m ≡ n → n < 10)

push_low :
    (bound n m : ℕ)
    → IsReadLow (n / 16) (some m)
    → IsReadLow n (push_digit bound 10 m (if ltb (n % 16) 10 then some (n % 16) else none))
unfolding push_digit
push_low bound n m low = elim (Bool-cases (ltb (n % 16) 10)) [
  | inl small ↦ elim (Bool-cases (ltb (m * 10 + n % 16) bound)) [
    | inl fits ↦ rw (small, push_digit, fits) (ground arith, λ e. ground arith)
    | inr over ↦ rw (small, push_digit, over) tt
  ]
  | inr letter ↦ rw letter tt
]

push_digit-IsReadLow :
    (bound n : ℕ) (read : Option ℕ)
    → IsReadLow (n / 16) read
    → IsReadLow n (digits_from bound 10 read (digit_char (n % 16) ∷ []))
push_digit-IsReadLow bound n none low = unfold digits_from in tt
push_digit-IsReadLow bound n (some m) low =
    rw (digits_from_last bound 10, to_digit_10-digit_char (n % 16) (omega arith))
      (push_low bound n m low)

pub fixed_digits-IsReadLow :
    (bound width n : ℕ) → IsReadLow n (digits_from bound 10 (some 0) (fixed_digits 16 width n))
unfolding fixed_digits digits_from
fixed_digits-IsReadLow bound zero n = (omega arith, λ e. omega arith)
fixed_digits-IsReadLow bound (suc width) n =
    rw
      (digits_from-append bound 10 (some 0) (fixed_digits 16 width (n / 16))
        (digit_char (n % 16) ∷ []))
      (push_digit-IsReadLow bound n _ (fixed_digits-IsReadLow bound width (n / 16)))
