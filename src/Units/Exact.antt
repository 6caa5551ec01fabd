-- ===== src/Units/Exact.antt =====
-- `fromDecimals` of core/common/helpers/format-units.ts on a text in scientific notation.
use colibri.Common.{
  ℕ, suc, ◌+◌, ◌-◌, ◌*◌, ◌^◌, ◌≤◌, ◌<◌, ◌≡◌, refl, ap, ◌∙◌, Bool, true, false, ◌⊎◌, inl, inr,
  Option, none, some, [], ◌∷◌, ◌++◌, Text, Bool-cases, ltb, length, ℤ, pos, all_digits,
  decimal_value, ten_pow-add, decimal_value-append, Result, ok, err, if◌then◌else◌, arith,
}
use colibri.Units.{
  UnitsError, refuse, integer, string, is_space, from_parts, fit_fraction, from_unsigned,
  from_trimmed, from_input, checked_count, from_decimals, too_many_fraction_digits,
}
use colibri.Units.Expansion.{Denotes, expand-Denotes}
use colibri.Units.Matching.{
  Sign, bare, plus, minus, sign_prefix, is_minus, point_text, fraction_of, Notation, unsigned_text,
  IsNotation, expand_scientific-eq, digit-no_sign,
}
use colibri.Units.Values.{signed, base_units-eq}
use colibri.Units.Shapes.{
  match_plain-with_fraction, is_solid, is_solid-append, is_solid-plain, all_plain-digits,
  trim-solid,
}

-- The units are the number `digits * 10 ^ up / 10 ^ down` in units of `10 ^ d` exactly; or the number
-- was refused because its text has more than `d` digits behind the point.
abbrev pub IsExact : Text → ℕ → Bool → ℕ → ℕ → ℕ → Result UnitsError ℤ → Type 0
IsExact raw d negative digits up down (ok units) =
    (n : ℕ) × (units ≡ signed negative n) × (n * 10 ^ down ≡ digits * 10 ^ (d + up))
IsExact raw d negative digits up down (err e) =
    (count : ℕ) × (e ≡ too_many_fraction_digits raw d count) × (d < count)

multiply_by :
    (u x a y l n e : ℕ) → (x * a + y) * l ≡ n * e → (x * (a * u) + y * u) * l ≡ n * (e * u)
multiply_by u x a y l n e h =
    let left : (x * (a * u) + y * u) * l ≡ (x * a + y) * l * u = grind arith in
    let right : n * e * u ≡ n * (e * u) = grind arith in left ∙ ap (λ (t : ℕ). t * u) h ∙ right

exact_units :
    (x y d g up low digits : ℕ)
    → g ≤ d
    → (x * 10 ^ g + y) * 10 ^ low ≡ digits * 10 ^ (g + up)
    → (x * 10 ^ d + y * 10 ^ (d - g)) * 10 ^ low ≡ digits * 10 ^ (d + up)
exact_units x y d g up low digits h e =
    let unit : 10 ^ d ≡ 10 ^ g * 10 ^ (d - g) =
      ap (λ (n : ℕ). 10 ^ n) (let same : d ≡ g + (d - g) = omega arith in same)
      ∙ ten_pow-add g (d - g) in
    let total : 10 ^ (d + up) ≡ 10 ^ (g + up) * 10 ^ (d - g) =
      ap (λ (n : ℕ). 10 ^ n) (let same : d + up ≡ (g + up) + (d - g) = omega arith in same)
      ∙ ten_pow-add (g + up) (d - g) in
    rw (unit, total) (multiply_by (10 ^ (d - g)) x (10 ^ g) y (10 ^ low) digits (10 ^ (g + up)) e)

module _ (raw : Text) (d : ℕ) (negative : Bool) (i f : Text) (up down : ℕ) where
  abbrev Outcome : Result UnitsError ℤ → Type 0
  Outcome = IsExact raw d negative (decimal_value (i ++ f)) up (length f + down)

  from_parts-IsExact :
      (w g : Text) → Denotes i f up down w g → Outcome (from_parts raw d refuse negative (w, g))
  unfolding from_parts fit_fraction
  from_parts-IsExact [] g h = let none_left = h.some_digits in elim none_left [ ]
  from_parts-IsExact (c ∷ w) g h =
      let some_digits : ltb 0 (suc (length w)) ≡ true = ground arith in
      elim (Bool-cases (ltb d (length g))) [
        | inl long ↦ rw (some_digits, long) (length g, refl, ground arith)
        | inr fits ↦
            let short : length g ≤ d = ground arith in
            rw (some_digits, fits)
              (
                decimal_value (c ∷ w) * 10 ^ d + decimal_value g * 10 ^ (d - length g),
                base_units-eq negative d (c ∷ w) g short,
                exact_units (decimal_value (c ∷ w)) (decimal_value g) d (length g) up
                    (length f + down) (decimal_value (i ++ f)) short
                    (rw (decimal_value-append (c ∷ w) g) at h.value),
              )
      ]

is_solid-digits : (s : Text) → all_digits s ≡ true → is_solid s ≡ true
is_solid-digits s h = is_solid-plain s (all_plain-digits s h)

is_solid-sign : (sign : Sign) → is_solid (sign_prefix sign) ≡ true
unfolding is_solid is_space
is_solid-sign bare = refl
is_solid-sign plus = refl
is_solid-sign minus = refl

is_solid-point :
    (f : Option Text) → all_digits (fraction_of f) ≡ true → is_solid (point_text f) ≡ true
unfolding is_solid is_space
is_solid-point none h = refl
is_solid-point (some f) h = is_solid-append (b'.' ∷ []) f refl (is_solid-digits f h)

is_solid-mark :
    (c : ℕ) (s : Text) → (c ≡ b'e') ⊎ (c ≡ b'E') → is_solid s ≡ true → is_solid (c ∷ s) ≡ true
unfolding is_solid is_space
is_solid-mark c s (inl e) h = rw e (is_solid-append (b'e' ∷ []) s refl h)
is_solid-mark c s (inr e) h = rw e (is_solid-append (b'E' ∷ []) s refl h)

from_trimmed-digits :
    (raw : Text) (d : ℕ) (i rest : Text)
    → all_digits i ≡ true
    → 0 < length i
    → from_trimmed raw d refuse (i ++ rest) ≡ from_unsigned raw d refuse false (i ++ rest)
unfolding from_trimmed
from_trimmed-digits raw d [] rest h some_int = elim some_int [ ]
from_trimmed-digits raw d (c ∷ i) rest h some_int =
    let (minus_not, plus_not) = digit-no_sign c i h in rw (minus_not, plus_not)

abbrev pub up : Notation → ℕ
up x = if is_minus x.exponent_sign then 0 else decimal_value x.exponent

abbrev pub down : Notation → ℕ
down x = if is_minus x.exponent_sign then decimal_value x.exponent else 0

module _ (x : Notation) (shape : IsNotation x) where
  from_unsigned-IsExact :
      (raw : Text) (d : ℕ) (negative : Bool)
      → IsExact raw d negative
          (decimal_value (x.int_digits ++ fraction_of x.fraction))
          (up x)
          (length (fraction_of x.fraction) + down x)
          (from_unsigned raw d refuse negative (unsigned_text x))
  unfolding from_unsigned
  from_unsigned-IsExact raw d negative =
      let (w, g, written, means) =
        expand-Denotes x.int_digits (fraction_of x.fraction) shape.int_all_digits
          shape.fraction_all_digits shape.some_int (is_minus x.exponent_sign) x.exponent
          (decimal_value x.exponent) in
      rw
        (
          expand_scientific-eq x shape,
          written,
          match_plain-with_fraction w g means.whole_digits means.fraction_digits,
        )
        (from_parts-IsExact raw d negative x.int_digits (fraction_of x.fraction) (up x) (down x) w g
          means)

  is_solid-text : (sign : Sign) → is_solid (sign_prefix sign ++ unsigned_text x) ≡ true
  is_solid-text sign = is_solid-append (sign_prefix sign) _ (is_solid-sign sign) (
      is_solid-append x.int_digits _ (is_solid-digits x.int_digits shape.int_all_digits) (
        is_solid-append (point_text x.fraction) _
          (is_solid-point x.fraction shape.fraction_all_digits)
          (is_solid-mark x.mark _ shape.marked (
            is_solid-append (sign_prefix x.exponent_sign) _ (is_solid-sign x.exponent_sign)
              (is_solid-digits x.exponent shape.exponent_all_digits)))))

  from_trimmed-signed :
      (raw : Text) (d : ℕ) (sign : Sign)
      → from_trimmed raw d refuse (sign_prefix sign ++ unsigned_text x)
        ≡ from_unsigned raw d refuse (is_minus sign) (unsigned_text x)
  unfolding from_trimmed
  from_trimmed-signed raw d plus = refl
  from_trimmed-signed raw d minus = refl
  from_trimmed-signed raw d bare =
      from_trimmed-digits raw d x.int_digits _ shape.int_all_digits shape.some_int

-- A text in scientific notation, with or without a sign, a point and a sign of the exponent, whose
-- exponent is at most 1,000,000 in size: `fromDecimals` gives exactly the number that it stands for in
-- base units, with its sign, or refuses it for more digits behind the point than the decimals.
pub from_decimals-IsExact :
    (sign : Sign) (x : Notation) (d : ℕ)
    → IsNotation x
    → let s = sign_prefix sign ++ unsigned_text x in
      IsExact s d
        (is_minus sign)
        (decimal_value (x.int_digits ++ fraction_of x.fraction))
        (up x)
        (length (fraction_of x.fraction) + down x)
        (from_decimals (string s) (integer (pos d)) none)
unfolding from_decimals checked_count from_input
from_decimals-IsExact sign x d shape =
    let s : Text = sign_prefix sign ++ unsigned_text x in
    rw (trim-solid s (is_solid-text x shape sign), from_trimmed-signed x shape s d sign)
      (from_unsigned-IsExact x shape s d (is_minus sign))
