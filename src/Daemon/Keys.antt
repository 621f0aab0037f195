-- ===== src/Daemon/Keys.antt =====
-- The keys and values of map entries in crates/ebpf-assistd/src/loader.rs: how `parse_key` and
-- `parse_value` read them, and how the entries of a dump print them (`{:08x}`, `{:016x}`,
-- `to_string`). A text is the list of its code points; the standard library's integer parser and
-- formatter are written out for unsigned types.
pub mod Digits
pub mod Hex
pub mod Decimal
use ebpf_assist.Prelude.{
  ℕ, zero, suc, ◌+◌, ◌-◌, ◌*◌, ◌/◌, ◌%◌, ◌^◌, Bool, ◌&&◌, ◌||◌, List, [], ◌∷◌, ◌++◌, Option, none,
  some, String, Result, ok, err, ok_or, ltb, leb, nat_eq, if◌then◌else◌, length,
}
use ebpf_assist.Common.{Text}

-- `char::to_digit`
unfoldable pub to_digit : (radix c : ℕ) → Option ℕ
to_digit radix c =
    if leb b'0' c && leb c b'9' && ltb (c - b'0') radix
    then some (c - b'0')
    else if leb b'a' c && leb c b'f' && ltb (c - b'a' + 10) radix
    then some (c - b'a' + 10)
    else if leb b'A' c && leb c b'F' && ltb (c - b'A' + 10) radix
    then some (c - b'A' + 10)
    else none

-- One round of the parser: `checked_mul`, then `checked_add`, at the type's bound.
unfoldable pub push_digit : (bound radix acc : ℕ) → Option ℕ → Option ℕ
push_digit bound radix acc none = none
push_digit bound radix acc (some d) =
    if ltb (acc * radix + d) bound then some (acc * radix + d) else none

unfoldable pub digits_from : (bound radix : ℕ) → Option ℕ → Text → Option ℕ
digits_from bound radix none cs = none
digits_from bound radix (some acc) [] = some acc
digits_from bound radix (some acc) (c ∷ cs) =
    digits_from bound radix (push_digit bound radix acc (to_digit radix c)) cs

-- `from_str_radix` of an unsigned type: one leading `+`, then at least one digit.
unfoldable pub from_str_radix : (bound radix : ℕ) → Text → Option ℕ
unfolding digits_from
from_str_radix bound radix [] = none
from_str_radix bound radix (c ∷ []) =
    if nat_eq c b'+' then none else digits_from bound radix (some 0) (c ∷ [])
from_str_radix bound radix (c ∷ d ∷ cs) =
    if nat_eq c b'+'
    then digits_from bound radix (some 0) (d ∷ cs)
    else digits_from bound radix (some 0) (c ∷ d ∷ cs)

abbrev pub u32_bound : ℕ
u32_bound = 4294967296

abbrev pub u64_bound : ℕ
u64_bound = 18446744073709551616

-- `starts_with("0x") || starts_with("0X")`
unfoldable pub has_hex_prefix : Text → Bool
has_hex_prefix (c ∷ x ∷ cs) = nat_eq c b'0' && (nat_eq x b'x' || nat_eq x b'X')
has_hex_prefix _ = Bool.false

-- `&s[2..]`
abbrev after_prefix : Text → Text
after_prefix (c ∷ x ∷ cs) = cs
after_prefix cs = []

unfoldable pub parse_key : Text → Result String ℕ
unfolding has_hex_prefix from_str_radix
parse_key s =
    if has_hex_prefix s
    then ok_or (from_str_radix u32_bound 16 (after_prefix s)) "Invalid hex key"
    else ok_or (from_str_radix u32_bound 10 s) "Invalid key"

unfoldable pub parse_value : Text → Result String ℕ
unfolding has_hex_prefix from_str_radix
parse_value s =
    if has_hex_prefix s
    then ok_or (from_str_radix u64_bound 16 (after_prefix s)) "Invalid hex value"
    else ok_or (from_str_radix u64_bound 10 s) "Invalid value"

-- The index of an array map: `key.parse::<u32>()`.
unfoldable pub parse_index : Text → Result String ℕ
unfolding from_str_radix
parse_index s = ok_or (from_str_radix u32_bound 10 s) "Key must be numeric index for array maps"

-- The digit of a value below 16, in lower case.
unfoldable pub digit_char : ℕ → ℕ
digit_char d = if ltb d 10 then d + b'0' else d - 10 + b'a'

-- The last `width` digits of a number, the most significant first.
unfoldable pub fixed_digits : (radix width n : ℕ) → Text
unfolding digit_char
fixed_digits radix zero n = []
fixed_digits radix (suc width) n =
    fixed_digits radix width (n / radix) ++ digit_char (n % radix) ∷ []

-- `{:08x}` of a u32 and `{:016x}` of a u64: the width is that of the type's largest value.
unfoldable pub hex8 : ℕ → Text
unfolding fixed_digits
hex8 n = fixed_digits 16 8 n

unfoldable pub hex16 : ℕ → Text
unfolding fixed_digits
hex16 n = fixed_digits 16 16 n

-- `to_string` of a u32: its decimal digits with no leading zero. Ten digits are enough.
unfoldable pub strip_zeros : Text → Text
strip_zeros [] = []
strip_zeros (c ∷ []) = c ∷ []
strip_zeros (c ∷ d ∷ cs) = if nat_eq c b'0' then strip_zeros (d ∷ cs) else c ∷ d ∷ cs

unfoldable pub to_string : ℕ → Text
unfolding fixed_digits strip_zeros
to_string n = strip_zeros (fixed_digits 10 10 n)
