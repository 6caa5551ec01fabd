-- ===== src/Units/Printing.antt =====
-- The digits that `toDecimals` of core/common/helpers/format-units.ts prints, and their value.
use native.Mathlib.Nat.{mul-add-div_right, div-eq_of_lt}
use colibri.Common.{
  ℕ, zero, suc, min, ◌+◌, ◌-◌, ◌*◌, ◌/◌, ◌^◌, ◌≤◌, ◌<◌, ◌≡◌, refl, sym, ap, ◌∙◌, Bool, true, false,
  inl, inr, Option, none, some, List, [], ◌∷◌, ◌++◌, Text, Bool-cases, leb, length, take, drop,
  take-drop, all_digits, decimal_value, to_decimal, arith, ten_pow-add, decimal_value-append,
  decimal_value-append-zeros, ℤ, pos, negsuc, if◌then◌else◌, decimal_value_bound, length-take,
  length-drop, all_digits-pad, length-pad, decimal_value-pad, decimal_value-to_decimal,
  all_digits-to_decimal, ok, length-to_decimal_pos, subst,
}
use colibri.Units.{
  Count, integer, fractional, ToDecimalsOptions, to_places, checked_count, cap_fraction,
  padded_digits, with_fraction, sign_text, magnitude_of, strip_trailing_zeros, or_true,
}
use colibri.Units.Values.{pad_end-strip}
use colibri.Units.Shapes.{all_digits-take, all_digits-drop, all_digits-strip, length-strip}

-- The places of the fraction that are printed, if there is a limit that is a whole number.
abbrev pub places : ℕ → Option Count → ℕ
places d (some (integer (pos most))) = min d most
places d _ = d

abbrev pub IsCount : Option Count → Type 0
IsCount none = Unit
IsCount (some (integer (pos n))) = Unit
IsCount (some _) = ⊥

-- Whole units and the rest.
floor-eq : (q p r : ℕ) → r < p → (q * p + r) / p * p ≡ q * p
floor-eq q p r h =
    rw (mul-add-div_right {m = p} (omega arith) q r, div-eq_of_lt {n = r} {m = p} h) (grind arith)

floor-of_parts :
    (x y r p u a : ℕ) → r < u → a ≡ x * (p * u) + (y * u + r) → x * (p * u) + y * u ≡ a / u * u
floor-of_parts x y r p u a h e =
    let joined : (x * p + y) * u ≡ x * (p * u) + y * u = grind arith in
    let sum : a ≡ (x * p + y) * u + r = omega (arith, joined, e) in
    sym joined ∙ sym (floor-eq (x * p + y) u r h) ∙ ap (λ (t : ℕ). t / u * u) (sym sum)

-- The text that `toDecimals` gives: digits, and a fraction of at most `d` of them.
pub record Prints (amount : ℤ) (d p : ℕ) (w f : Text) : Type 0 where
  pub whole_digits : all_digits w ≡ true
  pub fraction_digits : all_digits f ≡ true
  pub some_digits : 0 < length w
  pub fits : length f ≤ d
  pub value :
      decimal_value w * 10 ^ d + decimal_value f * 10 ^ (d - length f)
      ≡ magnitude_of amount / 10 ^ (d - p) * 10 ^ (d - p)

record IsPadded (a pad : ℕ) (s : Text) : Type 0 where
  digits : all_digits s ≡ true
  wide : pad ≤ length s
  amount : decimal_value s ≡ a

padded_digits-IsPadded : (a pad : ℕ) → IsPadded a pad (padded_digits pad (to_decimal a))
unfolding padded_digits
padded_digits-IsPadded a pad = elim (Bool-cases (leb pad (length (to_decimal a)))) [
  | inl wide ↦ rw wide record {
    digits = all_digits-to_decimal a;
    wide = ground arith;
    amount = decimal_value-to_decimal a;
  }
  | inr short ↦ rw short record {
    digits = all_digits-pad pad (to_decimal a) (all_digits-to_decimal a);
    wide = omega (arith, length-pad pad b'0' (to_decimal a) (ground arith));
    amount = decimal_value-pad pad (to_decimal a) ∙ decimal_value-to_decimal a;
  }
]

module _ (d : ℕ) (s : Text) (wide : d < length s) where
  length-fraction : length (drop (length s - d) s) ≡ d
  length-fraction = omega (arith, length-drop (length s - d) s)

  -- The digits before the cut and the first `p` behind it are the amount in units of the last place.
  cut-value :
      (p : ℕ)
      → all_digits s ≡ true
      → p ≤ d
      → let w = take (length s - d) s in
        let f = take p (drop (length s - d) s) in
        decimal_value w * 10 ^ d + decimal_value f * 10 ^ (d - p)
        ≡ decimal_value s / 10 ^ (d - p) * 10 ^ (d - p)
  cut-value p digits h =
      let w : Text = take (length s - d) s in
      let frac : Text = drop (length s - d) s in
      let f : Text = take p frac in
      let r : Text = drop p frac in
      let unit : ℕ = 10 ^ (d - p) in
      let long_f : length f ≡ p = omega (arith, length-take p frac, length-fraction) in
      let long_r : length r ≡ d - p = omega (arith, length-drop p frac, length-fraction) in
      let parts : decimal_value s ≡ decimal_value w * 10 ^ length frac + decimal_value frac =
        ap decimal_value (sym (take-drop (length s - d) s)) ∙ decimal_value-append w frac in
      let parts' : decimal_value frac ≡ decimal_value f * 10 ^ length r + decimal_value r =
        ap decimal_value (sym (take-drop p frac)) ∙ decimal_value-append f r in
      let power : 10 ^ d ≡ 10 ^ p * unit =
        ap (λ (n : ℕ). 10 ^ n) (let e : d ≡ p + (d - p) = omega arith in e)
        ∙ ten_pow-add p (d - p) in
      let small : decimal_value r < unit = rw long_r at (
        decimal_value_bound r (all_digits-drop p frac (all_digits-drop (length s - d) s digits))) in
      let total : decimal_value s
          ≡ decimal_value w * (10 ^ p * unit) + (decimal_value f * unit + decimal_value r) =
        parts ∙ rw (parts', long_r, length-fraction, power) in
      rw power (
        floor-of_parts (decimal_value w) (decimal_value f) (decimal_value r) (10 ^ p) unit
          (decimal_value s) small total)

  cut-Prints :
      (amount : ℤ) (p : ℕ)
      → all_digits s ≡ true
      → decimal_value s ≡ magnitude_of amount
      → p ≤ d
      → Prints amount d p (take (length s - d) s) (take p (drop (length s - d) s))
  cut-Prints amount p digits total h =
      let frac : Text = drop (length s - d) s in
      let long : length (take p frac) ≡ p = omega (arith, length-take p frac, length-fraction) in
      record {
        whole_digits = all_digits-take (length s - d) s digits;
        fraction_digits = all_digits-take p frac (all_digits-drop (length s - d) s digits);
        some_digits = omega (arith, length-take (length s - d) s);
        fits = omega arith;
        value = rw (long, ← total) (cut-value p digits h);
      }

Prints-strip :
    (amount : ℤ) (d p : ℕ) (w f : Text)
    → Prints amount d p w f
    → Prints amount d p w (strip_trailing_zeros f)
Prints-strip amount d p w f h = record {
  whole_digits = h.whole_digits;
  fraction_digits = all_digits-strip f h.fraction_digits;
  some_digits = h.some_digits;
  fits = omega (arith, length-strip f, h.fits);
  value =
      let same : decimal_value (strip_trailing_zeros f) * 10 ^ (d - length (strip_trailing_zeros f))
          ≡ decimal_value f * 10 ^ (d - length f) =
        sym (
          decimal_value-append-zeros (strip_trailing_zeros f) (d - length (strip_trailing_zeros f)))
        ∙ ap decimal_value (pad_end-strip f d h.fits)
        ∙ decimal_value-append-zeros f (d - length f) in
      ap (λ (t : ℕ). decimal_value w * 10 ^ d + t) same ∙ h.value;
}

Prints-kept :
    (amount : ℤ) (d p : ℕ) (w f : Text) (trims : Bool)
    → Prints amount d p w f
    → Prints amount d p w (if trims then strip_trailing_zeros f else f)
Prints-kept amount d p w f true h = Prints-strip amount d p w f h
Prints-kept amount d p w f false h = h

take_all {ℓ} : {A : Type ℓ} (xs : List A) → take (length xs) xs ≡ xs
take_all [] = refl
take_all (x ∷ xs) = ap (λ r. x ∷ r) (take_all xs)

take-min {ℓ} : {A : Type ℓ} (n : ℕ) (xs : List A) → take n xs ≡ take (min (length xs) n) xs
take-min zero xs = let e : min (length xs) 0 ≡ 0 = omega arith in rw e
take-min (suc n) [] = let e : min 0 (suc n) ≡ 0 = omega arith in rw e
take-min (suc n) (x ∷ xs) =
    let e : min (suc (length xs)) (suc n) ≡ suc (min (length xs) n) = omega arith in
    rw e (ap (λ r. x ∷ r) (take-min n xs))

cap_fraction-ok :
    (max_digits : Option Count) (f : Text)
    → IsCount max_digits
    → cap_fraction max_digits f ≡ ok (take (places (length f) max_digits) f)
unfolding cap_fraction checked_count
cap_fraction-ok none f h = ap ok (sym (take_all f))
cap_fraction-ok (some (integer (pos n))) f h = ap ok (take-min n f)
cap_fraction-ok (some (integer (negsuc n))) f h = absurd h
cap_fraction-ok (some fractional) f h = absurd h

places-le : (d : ℕ) (max_digits : Option Count) → places d max_digits ≤ d
places-le d none = omega arith
places-le d (some (integer (pos n))) = omega arith
places-le d (some (integer (negsuc n))) = omega arith
places-le d (some fractional) = omega arith

-- `toDecimals` succeeds, and prints digits of that value.
pub to_places-Prints :
    (amount : ℤ) (d : ℕ) (o : ToDecimalsOptions)
    → IsCount o.max_fraction_digits
    → (w : Text) × (f : Text) × (to_places amount d o ≡ ok (sign_text amount ++ with_fraction w f))
      × Prints amount d (places d o.max_fraction_digits) w f
unfolding to_places all_digits decimal_value
to_places-Prints amount zero o h =
    let a : ℕ = magnitude_of amount in
    let last : 0 - places 0 o.max_fraction_digits ≡ 0 = omega arith in
    (
      to_decimal a,
      [],
      refl,
      record {
        whole_digits = all_digits-to_decimal a;
        fraction_digits = refl;
        some_digits = length-to_decimal_pos a;
        fits = omega arith;
        value = rw (last, decimal_value-to_decimal a) (omega arith);
      },
    )
to_places-Prints amount (suc n) o h =
    let s : Text = padded_digits (suc n + 1) (to_decimal (magnitude_of amount)) in
    let padded : IsPadded (magnitude_of amount) (suc n + 1) s =
      padded_digits-IsPadded (magnitude_of amount) (suc n + 1) in
    let wide : suc n < length s = omega (arith, padded.wide) in
    let frac : Text = drop (length s - suc n) s in
    let p : ℕ = places (suc n) o.max_fraction_digits in
    let capped : cap_fraction o.max_fraction_digits frac ≡ ok (take p frac) =
      subst
        (λ (m : ℕ).
          cap_fraction o.max_fraction_digits frac ≡ ok (take (places m o.max_fraction_digits) frac))
        (length-fraction (suc n) s wide) (cap_fraction-ok o.max_fraction_digits frac h) in
    (
      take (length s - suc n) s,
      (if or_true o.trim_trailing_zeros then strip_trailing_zeros (take p frac) else take p frac),
      rw capped,
      Prints-kept amount (suc n) p _ _ (or_true o.trim_trailing_zeros) (
          cut-Prints (suc n) s wide amount p padded.digits padded.amount
            (places-le (suc n) o.max_fraction_digits)),
    )
