-- ===== src/Units.antt =====
-- The conversion between decimal texts and base units of core/common/helpers/format-units.ts:
-- `fromDecimals`, `toDecimals` and their helpers. A number is given by what its `toString()` prints,
-- and `none` stands for one that is not finite.
mod Values
mod Shapes
mod Printing
mod RoundTrip
mod Expansion
mod Matching
mod Exact
mod Tests
use colibri.Common.{
  ℕ, zero, suc, ◌+◌, ◌-◌, ◌≡◌, Bool, true, false, ◌&&◌, ◌||◌, Option, none, some, List, [], ◌∷◌,
  ◌++◌, Text, Result, ok, err, ◌>>=◌, ◌>>◌, assert, ℤ, pos, negsuc, ◌==◌, ltb, leb, if◌then◌else◌,
  length, replicate, take, drop, pad_start, is_digit, all_digits, decimal_value, to_decimal,
}

pub data UnitsError : Type 0 where
  invalid_decimals invalid_max_fraction_digits non_finite_number : UnitsError
  empty_value invalid_decimal_input invalid_scientific_notation : Text → UnitsError
  invalid_scientific_exponent : Text → UnitsError
  too_many_fraction_digits : Text → ℕ → ℕ → UnitsError

pub data DecimalInput : Type 0 where
  string : Text → DecimalInput
  number : Option Text → DecimalInput
  bigint : ℤ → DecimalInput

pub data ExcessFraction : Type 0 where
  refuse truncate : ExcessFraction

-- A number that has to be a whole one that is not negative; `fractional` is any other.
pub data Count : Type 0 where
  integer : ℤ → Count
  fractional : Count

-- `Number.isInteger(n) && n >= 0`
pub checked_count {ℓ} : {E : Type ℓ} → E → Count → Result E ℕ
checked_count e (integer (pos n)) = ok n
checked_count e (integer (negsuc n)) = err e
checked_count e fractional = err e

-- White space and line ends, which `trim()` removes.
pub is_space : ℕ → Bool
is_space c =
    (leb 9 c && leb c 13)
    || c == 32
    || c == 160
    || c == 0xFEFF
    || c == 0x1680
    || (leb 0x2000 c && leb c 0x200A)
    || c == 0x2028
    || c == 0x2029
    || c == 0x202F
    || c == 0x205F
    || c == 0x3000

pub trim_start : Text → Text
trim_start [] = []
trim_start (c ∷ s) = let rest = trim_start s in if is_space c then rest else c ∷ s

pub push_kept : ℕ → Text → Text
push_kept c [] = if is_space c then [] else c ∷ []
push_kept c (d ∷ s) = c ∷ d ∷ s

pub trim_end : Text → Text
trim_end [] = []
trim_end (c ∷ s) = push_kept c (trim_end s)

pub trim : Text → Text
trim s = trim_end (trim_start s)

-- The longest prefix of digits, and what follows it.
pub span_digits : Text → Text × Text
span_digits [] = ([], [])
span_digits (c ∷ s) = let r = span_digits s in if is_digit c then (c ∷ r.0, r.1) else ([], c ∷ s)

-- `(?:\.(\d*))?` at the front of a text.
pub fraction_at : Text → Text × Text
fraction_at [] = ([], [])
fraction_at (c ∷ s) = if c == b'.' then span_digits s else ([], c ∷ s)

pub is_exponent_mark : ℕ → Bool
is_exponent_mark c = c == b'e' || c == b'E'

pub has_exponent_mark : Text → Bool
has_exponent_mark [] = false
has_exponent_mark (c ∷ s) = is_exponent_mark c || has_exponent_mark s

pub record Scientific : Type 0 where
  pub int_part : Text
  pub frac_part : Text
  pub negative : Bool
  pub magnitude : Text

pub exponent_digits : Text → Text → Bool → Text → Option Scientific
exponent_digits i f sign [] = none
exponent_digits i f sign (c ∷ s) =
    if all_digits (c ∷ s)
    then some (record { int_part = i; frac_part = f; negative = sign; magnitude = c ∷ s })
    else none

pub signed_exponent : Text → Text → Text → Option Scientific
signed_exponent i f [] = none
signed_exponent i f (c ∷ s) =
    if c == b'-'
    then exponent_digits i f true s
    else if c == b'+'
    then exponent_digits i f false s
    else exponent_digits i f false (c ∷ s)

pub marked_exponent : Text → Text → Text → Option Scientific
marked_exponent i f [] = none
marked_exponent i f (c ∷ s) = if is_exponent_mark c then signed_exponent i f s else none

pub with_int_part : Text → Text → Option Scientific
with_int_part [] rest = none
with_int_part (c ∷ i) rest = marked_exponent (c ∷ i) (fraction_at rest).0 (fraction_at rest).1

-- `/^(\d+)(?:\.(\d*))?[eE]([+-]?\d+)$/.exec(s)`
pub match_scientific : Text → Option Scientific
match_scientific s = with_int_part (span_digits s).0 (span_digits s).1

abbrev pub max_exponent_abs : ℕ
max_exponent_abs = 1_000_000

-- The digits with the point at `position`, or zeros around them where it lies outside.
pub place_point : Text → ℕ → Text
place_point digits position =
    if leb (length digits) position
    then digits ++ replicate (position - length digits) b'0'
    else take position digits ++ b'.' ∷ drop position digits

pub expand : Scientific → ℕ → Text
expand m exponent =
    let digits = m.int_part ++ m.frac_part in
    if m.negative
    then (if leb (length m.int_part) exponent
        then b'0' ∷ b'.' ∷ (replicate (exponent - length m.int_part) b'0' ++ digits)
        else place_point digits (length m.int_part - exponent))
    else place_point digits (length m.int_part + exponent)

pub expand_match : Text → Option Scientific → Result UnitsError Text
expand_match s none = err (invalid_scientific_notation s)
expand_match s (some m) =
    if ltb max_exponent_abs (decimal_value m.magnitude)
    then err (invalid_scientific_exponent s)
    else ok (expand m (decimal_value m.magnitude))

pub expand_scientific : Text → Result UnitsError Text
expand_scientific s = if has_exponent_mark s then expand_match s (match_scientific s) else ok s

-- The two groups of `/^(\d*)(?:\.(\d*))?$/.exec(s)`, both empty where it does not match.
pub match_plain : Text → Text × Text
match_plain s =
    let (i, rest) = span_digits s in
    let (f, end) = fraction_at rest in if length end == 0 then (i, f) else ([], [])

-- `s.replace(/^0+(?=\d)/, "")`
pub strip_leading_zeros : Text → Text
strip_leading_zeros [] = []
strip_leading_zeros (c ∷ []) = c ∷ []
strip_leading_zeros (c ∷ d ∷ s) =
    let rest = strip_leading_zeros (d ∷ s) in if c == b'0' && is_digit d then rest else c ∷ d ∷ s

-- `a || b` on strings.
abbrev pub or_text : Text → Text → Text
or_text [] t = t
or_text (c ∷ s) t = c ∷ s

-- `s.padEnd(n, "0")`
abbrev pub pad_end : ℕ → Text → Text
pad_end n s = s ++ replicate (n - length s) b'0'

abbrev pub neg : ℕ → ℤ
neg zero = pos 0
neg (suc n) = negsuc n

pub fit_fraction : Text → ℕ → ExcessFraction → Text → Result UnitsError Text
fit_fraction raw decimals truncate frac =
    ok (if ltb decimals (length frac) then take decimals frac else frac)
fit_fraction raw decimals refuse frac =
    if ltb decimals (length frac)
    then err (too_many_fraction_digits raw decimals (length frac))
    else ok frac

pub base_units : Bool → ℕ → Text → Text → ℤ
base_units negative decimals whole frac =
    let digits =
      strip_leading_zeros
        (strip_leading_zeros (or_text whole (b'0' ∷ [])) ++ pad_end decimals frac) in
    if negative then neg (decimal_value digits) else pos (decimal_value digits)

pub from_parts : Text → ℕ → ExcessFraction → Bool → Text × Text → Result UnitsError ℤ
from_parts raw decimals excess negative (whole, frac) = do
  assert (ltb 0 (length whole) || ltb 0 (length frac)) (invalid_decimal_input raw)
  fitted ← fit_fraction raw decimals excess frac
  ok (base_units negative decimals whole fitted)

pub from_unsigned : Text → ℕ → ExcessFraction → Bool → Text → Result UnitsError ℤ
from_unsigned raw decimals excess negative unsigned = do
  plain ← expand_scientific unsigned
  from_parts raw decimals excess negative (match_plain plain)

pub from_trimmed : Text → ℕ → ExcessFraction → Text → Result UnitsError ℤ
from_trimmed raw decimals excess [] = err (empty_value raw)
from_trimmed raw decimals excess (c ∷ s) =
    from_unsigned raw decimals excess (c == b'-') (if c == b'-' || c == b'+' then s else c ∷ s)

pub from_input : ℕ → ExcessFraction → DecimalInput → Result UnitsError ℤ
from_input decimals excess (bigint n) = ok n
from_input decimals excess (number none) = err non_finite_number
from_input decimals excess (number (some raw)) = from_trimmed raw decimals excess (trim raw)
from_input decimals excess (string raw) = from_trimmed raw decimals excess (trim raw)

abbrev pub excess_or_default : Option ExcessFraction → ExcessFraction
excess_or_default none = refuse
excess_or_default (some e) = e

pub from_decimals : DecimalInput → Count → Option ExcessFraction → Result UnitsError ℤ
from_decimals value decimals excess = do
  d ← checked_count invalid_decimals decimals
  from_input d (excess_or_default excess) value

pub record ToDecimalsOptions : Type 0 where
  pub trim_trailing_zeros : Option Bool
  pub max_fraction_digits : Option Count

abbrev pub or_true : Option Bool → Bool
or_true none = true
or_true (some b) = b

pub push_digit : ℕ → Text → Text
push_digit c [] = if c == b'0' then [] else c ∷ []
push_digit c (d ∷ s) = c ∷ d ∷ s

-- `s.replace(/0+$/, "")`
pub strip_trailing_zeros : Text → Text
strip_trailing_zeros [] = []
strip_trailing_zeros (c ∷ s) = push_digit c (strip_trailing_zeros s)

pub cap_fraction : Option Count → Text → Result UnitsError Text
cap_fraction none frac = ok frac
cap_fraction (some digits) frac = do
  most ← checked_count invalid_max_fraction_digits digits
  ok (take most frac)

abbrev pub magnitude_of : ℤ → ℕ
magnitude_of (pos n) = n
magnitude_of (negsuc n) = suc n

abbrev pub sign_text : ℤ → Text
sign_text (pos n) = []
sign_text (negsuc n) = b'-' ∷ []

abbrev pub with_fraction : Text → Text → Text
with_fraction whole [] = whole
with_fraction whole (c ∷ frac) = whole ++ b'.' ∷ c ∷ frac

pub padded_digits : ℕ → Text → Text
padded_digits pad s = if leb pad (length s) then s else pad_start pad b'0' s

pub to_places : ℤ → ℕ → ToDecimalsOptions → Result UnitsError Text
to_places amount zero opts = ok (sign_text amount ++ to_decimal (magnitude_of amount))
to_places amount (suc n) opts = do
  let padded = padded_digits (suc n + 1) (to_decimal (magnitude_of amount))
  let cut = length padded - suc n
  frac ← cap_fraction opts.max_fraction_digits (drop cut padded)
  let kept = if or_true opts.trim_trailing_zeros then strip_trailing_zeros frac else frac
  ok (sign_text amount ++ with_fraction (take cut padded) kept)

pub to_decimals : ℤ → Count → ToDecimalsOptions → Result UnitsError Text
to_decimals amount decimals opts = do
  d ← checked_count invalid_decimals decimals
  to_places amount d opts
