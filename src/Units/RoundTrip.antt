-- ===== src/Units/RoundTrip.antt =====
-- What `toDecimals` of core/common/helpers/format-units.ts prints, `fromDecimals` reads.
use colibri.Common.{
  ℕ, suc, ◌+◌, ◌-◌, ◌*◌, ◌/◌, ◌^◌, ◌≤◌, ◌<◌, ◌≡◌, refl, ap, ◌∙◌, Bool, true, false, Option, [], ◌∷◌,
  ◌++◌, Text, ◌==◌, length, is_digit, all_digits, decimal_value, arith, ℤ, pos, negsuc, ok,
}
use colibri.Units.{
  excess_or_default, ExcessFraction, integer, string, ToDecimalsOptions, from_decimals, to_decimals,
  from_trimmed, from_input, checked_count, with_fraction, sign_text, magnitude_of, neg, base_units,
}
use colibri.Units.Printing.{places, IsCount, to_places-Prints}
use colibri.Units.Values.{signed, base_units-eq}
use colibri.Units.Shapes.{from_unsigned-plain, trim-plain, all_plain-printed}

abbrev pub is_negative : ℤ → Bool
is_negative (pos n) = false
is_negative (negsuc n) = true

-- The amount towards zero to the digits that are printed.
abbrev pub towards_zero : ℕ → ℤ → ℤ
towards_zero unit (pos n) = pos (n / unit * unit)
towards_zero unit (negsuc n) = neg (suc n / unit * unit)

module _ (raw : Text) (d : ℕ) (excess : ExcessFraction) where
  from_trimmed-digits :
      (w f : Text)
      → all_digits w ≡ true
      → all_digits f ≡ true
      → 0 < length w
      → length f ≤ d
      → from_trimmed raw d excess (with_fraction w f) ≡ ok (base_units false d w f)
  unfolding from_trimmed all_digits is_digit
  from_trimmed-digits [] f hw hf some_digits h = elim some_digits [ ]
  from_trimmed-digits (c ∷ w) [] hw hf some_digits h =
      let reads = from_unsigned-plain raw d excess false (c ∷ w) [] hw hf some_digits h in
      let minus : (c == b'-') ≡ false = ground arith in
      let plus : (c == b'+') ≡ false = ground arith in rw (minus, plus) reads
  from_trimmed-digits (c ∷ w) (e ∷ f) hw hf some_digits h =
      let reads = from_unsigned-plain raw d excess false (c ∷ w) (e ∷ f) hw hf some_digits h in
      let minus : (c == b'-') ≡ false = ground arith in
      let plus : (c == b'+') ≡ false = ground arith in rw (minus, plus) reads

  -- A printed text is read with its sign.
  from_trimmed-printed :
      (amount : ℤ) (w f : Text)
      → all_digits w ≡ true
      → all_digits f ≡ true
      → 0 < length w
      → length f ≤ d
      → from_trimmed raw d excess (sign_text amount ++ with_fraction w f)
        ≡ ok (
            signed
              (is_negative amount)
              (decimal_value w * 10 ^ d + decimal_value f * 10 ^ (d - length f)))
  unfolding from_trimmed
  from_trimmed-printed (pos n) w f hw hf some_digits h =
      from_trimmed-digits w f hw hf some_digits h ∙ ap ok (base_units-eq false d w f h)
  from_trimmed-printed (negsuc n) w f hw hf some_digits h =
      from_unsigned-plain raw d excess true w f hw hf some_digits h
      ∙ ap ok (base_units-eq true d w f h)

signed-towards_zero :
    (amount : ℤ) (unit : ℕ)
    → signed (is_negative amount) (magnitude_of amount / unit * unit) ≡ towards_zero unit amount
signed-towards_zero (pos n) unit = refl
signed-towards_zero (negsuc n) unit = refl

-- Whatever the amount, the number of decimals and the options, if the limit on the fraction's digits
-- is absent or a whole number that is not negative, `toDecimals` succeeds, and `fromDecimals` reads from
-- its text, with either treatment of excess digits, the amount cut towards zero to the digits printed:
-- the amount itself if there is no limit or the limit is not below the decimals.
pub from_decimals-to_decimals :
    (amount : ℤ) (d : ℕ) (o : ToDecimalsOptions) (excess : Option ExcessFraction)
    → IsCount o.max_fraction_digits
    → (s : Text) × (to_decimals amount (integer (pos d)) o ≡ ok s)
      × (from_decimals (string s) (integer (pos d)) excess
          ≡ ok (towards_zero (10 ^ (d - places d o.max_fraction_digits)) amount))
unfolding to_decimals from_decimals checked_count from_input
from_decimals-to_decimals amount d o excess h =
    let (w, f, printed, shape) = to_places-Prints amount d o h in
    let s : Text = sign_text amount ++ with_fraction w f in
    let unit : ℕ = 10 ^ (d - places d o.max_fraction_digits) in
    (
      s,
      printed,
      rw (trim-plain s (all_plain-printed amount w f shape.whole_digits shape.fraction_digits)) (
          from_trimmed-printed s d (excess_or_default excess) amount w f shape.whole_digits
            shape.fraction_digits shape.some_digits shape.fits
          ∙ ap ok (rw shape.value (signed-towards_zero amount unit))),
    )
