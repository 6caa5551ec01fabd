-- ===== src/Units/Tests.antt =====
-- Concrete inputs of the functions of core/common/helpers/format-units.ts.
use colibri.Common.{
  ◌≡◌, refl, false, none, some, inl, Text, codes, ok, err, pos, negsuc, arith, is_digit, all_digits,
  decimal_value, to_decimal,
}
use colibri.Units.{
  ToDecimalsOptions, integer, fractional, truncate, string, number, from_decimals, to_decimals,
  expand_scientific, match_plain, trim, invalid_decimals, empty_value, invalid_decimal_input,
  too_many_fraction_digits, invalid_scientific_exponent, invalid_scientific_notation, checked_count,
  from_input, from_trimmed, from_unsigned, from_parts, fit_fraction, base_units,
  strip_leading_zeros, expand, expand_match, place_point, match_scientific, with_int_part,
  marked_exponent, signed_exponent, exponent_digits, is_exponent_mark, has_exponent_mark,
  fraction_at, span_digits, trim_end, trim_start, push_kept, is_space, to_places, padded_digits,
  cap_fraction, push_digit, strip_trailing_zeros,
}
use colibri.Units.RoundTrip.{from_decimals-to_decimals}
use colibri.Units.Exact.{from_decimals-IsExact, IsExact}
use colibri.Units.Matching.{Notation, bare, minus}

abbrev two_places : ToDecimalsOptions
two_places = record { trim_trailing_zeros = none; max_fraction_digits = some (integer (pos 2)) }

abbrev no_options : ToDecimalsOptions
no_options = record { trim_trailing_zeros = none; max_fraction_digits = none }

-- 1.23e-2
abbrev small_number : Notation
small_number = record {
  int_digits = codes "1";
  fraction = some (codes "23");
  mark = b'e';
  exponent_sign = minus;
  exponent = codes "2";
}

reads_decimals :
    (from_decimals (string (codes " -1.23")) (integer (pos 6)) none ≡ ok (negsuc 1_229_999))
    × (from_decimals (string (codes ".5")) (integer (pos 1)) none ≡ ok (pos 5))
    × (from_decimals (string (codes "12.5e+3")) (integer (pos 0)) none ≡ ok (pos 12_500))
    × (from_decimals (string (codes "1.29")) (integer (pos 1)) (some truncate) ≡ ok (pos 12))
    × (from_decimals (number (some (codes "1e-7"))) (integer (pos 7)) none ≡ ok (pos 1))
unfolding checked_count from_input from_trimmed from_unsigned from_parts fit_fraction base_units
    strip_leading_zeros expand expand_match place_point match_scientific with_int_part
    marked_exponent signed_exponent exponent_digits is_exponent_mark has_exponent_mark fraction_at
    span_digits trim trim_end trim_start push_kept is_space match_plain expand_scientific is_digit
    all_digits decimal_value from_decimals
reads_decimals = (refl, refl, refl, refl, refl)

refuses_decimals :
    (from_decimals (string (codes "1")) fractional none ≡ err invalid_decimals)
    × (from_decimals (string (codes "  ")) (integer (pos 1)) none ≡ err (empty_value (codes "  ")))
    × (from_decimals (string (codes "--1")) (integer (pos 1)) none
        ≡ err (invalid_decimal_input (codes "--1")))
    × (from_decimals (string (codes "1.25")) (integer (pos 1)) none
        ≡ err (too_many_fraction_digits (codes "1.25") 1 2))
    × (from_decimals (string (codes ".5e3")) (integer (pos 1)) none
        ≡ err (invalid_scientific_notation (codes ".5e3")))
    × (from_decimals (string (codes "1e1000001")) (integer (pos 1)) none
        ≡ err (invalid_scientific_exponent (codes "1e1000001")))
unfolding checked_count from_input from_trimmed from_unsigned from_parts fit_fraction base_units
    strip_leading_zeros expand expand_match place_point match_scientific with_int_part
    marked_exponent signed_exponent exponent_digits is_exponent_mark has_exponent_mark fraction_at
    span_digits trim trim_end trim_start push_kept is_space match_plain expand_scientific is_digit
    all_digits decimal_value from_decimals
refuses_decimals = (refl, refl, refl, refl, refl, refl)

prints_decimals :
    (to_decimals (pos 1_230_000) (integer (pos 6)) no_options ≡ ok (codes "1.23"))
    × (to_decimals (negsuc 4) (integer (pos 2)) no_options ≡ ok (codes "-0.05"))
    × (to_decimals (pos 129) (integer (pos 0)) two_places ≡ ok (codes "129"))
    × (to_decimals (pos 1_239_999) (integer (pos 6)) two_places ≡ ok (codes "1.23"))
unfolding checked_count to_places padded_digits cap_fraction push_digit strip_trailing_zeros
    to_decimal to_decimals
prints_decimals = (refl, refl, refl, refl)

from_decimals-to_decimals_example :
    (s : Text) × (to_decimals (negsuc 1_234_498) (integer (pos 6)) two_places ≡ ok s)
    × (from_decimals (string s) (integer (pos 6)) none ≡ ok (negsuc 1_229_999))
from_decimals-to_decimals_example =
    from_decimals-to_decimals (negsuc 1_234_498) 6 two_places none tt

from_decimals-IsExact_example :
    IsExact
      (codes "1.23e-2")
      7
      false
      123
      0
      4
      (from_decimals (string (codes "1.23e-2")) (integer (pos 7)) none)
unfolding decimal_value is_digit all_digits
from_decimals-IsExact_example = from_decimals-IsExact bare small_number 7 record {
  int_all_digits = refl;
  some_int = omega arith;
  fraction_all_digits = refl;
  marked = inl refl;
  exponent_all_digits = refl;
  some_exponent = omega arith;
  small = omega arith;
}
