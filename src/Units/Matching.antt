-- ===== src/Units/Matching.antt =====
-- The texts in scientific notation that core/common/helpers/format-units.ts takes, and what its
-- regular expression finds in them.
use colibri.Common.{
  ℕ, ◌≤◌, ◌<◌, ◌≡◌, refl, Bool, true, false, ◌⊎◌, inl, inr, Option, none, some, [], ◌∷◌, ◌++◌, Text,
  ◌==◌, ltb, length, is_digit, all_digits, decimal_value, ok, arith,
}
use colibri.Units.{
  Scientific, max_exponent_abs, is_exponent_mark, expand, match_scientific, has_exponent_mark,
  with_int_part, marked_exponent, signed_exponent, exponent_digits, fraction_at, expand_scientific,
  expand_match,
}
use colibri.Units.Shapes.{stops, span_digits-append, fraction_at-point}

-- An optional sign.
pub data Sign : Type 0 where
  bare plus minus : Sign

abbrev pub sign_prefix : Sign → Text
sign_prefix bare = []
sign_prefix plus = b'+' ∷ []
sign_prefix minus = b'-' ∷ []

abbrev pub is_minus : Sign → Bool
is_minus minus = true
is_minus _ = false

abbrev pub point_text : Option Text → Text
point_text none = []
point_text (some f) = b'.' ∷ f

abbrev pub fraction_of : Option Text → Text
fraction_of none = []
fraction_of (some f) = f

-- A number in scientific notation: digits, perhaps a point and digits, a mark and an exponent.
pub record Notation : Type 0 where
  pub int_digits : Text
  pub fraction : Option Text
  pub mark : ℕ
  pub exponent_sign : Sign
  pub exponent : Text

abbrev pub unsigned_text : Notation → Text
unsigned_text x =
    x.int_digits
    ++ (point_text x.fraction ++ (x.mark ∷ (sign_prefix x.exponent_sign ++ x.exponent)))

-- The text is one that the regular expression matches, with an exponent that is not too large.
pub record IsNotation (x : Notation) : Type 0 where
  pub int_all_digits : all_digits x.int_digits ≡ true
  pub some_int : 0 < length x.int_digits
  pub fraction_all_digits : all_digits (fraction_of x.fraction) ≡ true
  pub marked : (x.mark ≡ b'e') ⊎ (x.mark ≡ b'E')
  pub exponent_all_digits : all_digits x.exponent ≡ true
  pub some_exponent : 0 < length x.exponent
  pub small : decimal_value x.exponent ≤ max_exponent_abs

mark-cases :
    (c : ℕ)
    → (c ≡ b'e') ⊎ (c ≡ b'E')
    → (is_exponent_mark c ≡ true) × (is_digit c ≡ false) × ((c == b'.') ≡ false)
unfolding is_exponent_mark is_digit
mark-cases c (inl h) = ground arith
mark-cases c (inr h) = ground arith

pub digit-no_sign :
    (c : ℕ) (s : Text) → all_digits (c ∷ s) ≡ true → ((c == b'-') ≡ false) × ((c == b'+') ≡ false)
unfolding all_digits is_digit
digit-no_sign c s h = ground arith

signed_exponent-eq :
    (i f : Text) (sign : Sign) (m : Text)
    → all_digits m ≡ true
    → 0 < length m
    → signed_exponent i f (sign_prefix sign ++ m)
      ≡ some (record { int_part = i; frac_part = f; negative = is_minus sign; magnitude = m })
unfolding signed_exponent exponent_digits
signed_exponent-eq i f sign [] hm h = elim h [ ]
signed_exponent-eq i f bare (c ∷ m) hm h =
    let (minus_not, plus_not) = digit-no_sign c m hm in rw (minus_not, plus_not, hm)
signed_exponent-eq i f plus (c ∷ m) hm h = rw hm
signed_exponent-eq i f minus (c ∷ m) hm h = rw hm

fraction_at-eq :
    (fraction : Option Text) (c : ℕ) (t : Text)
    → all_digits (fraction_of fraction) ≡ true
    → is_digit c ≡ false
    → (c == b'.') ≡ false
    → fraction_at (point_text fraction ++ c ∷ t) ≡ (fraction_of fraction, c ∷ t)
unfolding fraction_at
fraction_at-eq none c t h digit point = rw point
fraction_at-eq (some f) c t h digit point = fraction_at-point f (c ∷ t) h (rw digit)

with_int_part-eq :
    (i rest : Text)
    → 0 < length i
    → with_int_part i rest ≡ marked_exponent i (fraction_at rest).0 (fraction_at rest).1
unfolding with_int_part
with_int_part-eq [] rest h = elim h [ ]
with_int_part-eq (c ∷ i) rest h = refl

stops-point :
    (fraction : Option Text) (c : ℕ) (t : Text)
    → is_digit c ≡ false
    → stops (point_text fraction ++ c ∷ t) ≡ true
unfolding is_digit
stops-point none c t h = rw h
stops-point (some f) c t h = refl

has_exponent_mark-head :
    (c : ℕ) (t : Text) → is_exponent_mark c ≡ true → has_exponent_mark (c ∷ t) ≡ true
unfolding has_exponent_mark
has_exponent_mark-head c t h = rw h

has_exponent_mark-append :
    (s t : Text) → has_exponent_mark t ≡ true → has_exponent_mark (s ++ t) ≡ true
unfolding has_exponent_mark
has_exponent_mark-append [] t h = h
has_exponent_mark-append (c ∷ s) t h = ground (arith, has_exponent_mark-append s t h)

not_above : (m n : ℕ) → n ≤ m → ltb m n ≡ false
not_above m n h = ground arith

module _ (x : Notation) (shape : IsNotation x) where
  abbrev pub matched : Scientific
  matched = record {
    int_part = x.int_digits;
    frac_part = fraction_of x.fraction;
    negative = is_minus x.exponent_sign;
    magnitude = x.exponent;
  }

  match_scientific-eq : match_scientific (unsigned_text x) ≡ some matched
  unfolding match_scientific marked_exponent
  match_scientific-eq =
      let (mark, digit, point) = mark-cases x.mark shape.marked in
      let tail : Text = sign_prefix x.exponent_sign ++ x.exponent in
      rw
        (
          span_digits-append x.int_digits (point_text x.fraction ++ (x.mark ∷ tail))
              shape.int_all_digits (stops-point x.fraction x.mark tail digit),
          with_int_part-eq x.int_digits (point_text x.fraction ++ (x.mark ∷ tail)) shape.some_int,
          fraction_at-eq x.fraction x.mark tail shape.fraction_all_digits digit point,
          mark,
        )
        (signed_exponent-eq x.int_digits (fraction_of x.fraction) x.exponent_sign x.exponent
          shape.exponent_all_digits shape.some_exponent)

  has_exponent_mark-eq : has_exponent_mark (unsigned_text x) ≡ true
  has_exponent_mark-eq = has_exponent_mark-append x.int_digits _ (
      has_exponent_mark-append (point_text x.fraction) _
        (has_exponent_mark-head x.mark _ (mark-cases x.mark shape.marked).0))

  pub expand_scientific-eq :
      expand_scientific (unsigned_text x) ≡ ok (expand matched (decimal_value x.exponent))
  unfolding expand_scientific expand_match
  expand_scientific-eq =
      let within : ltb max_exponent_abs (decimal_value x.exponent) ≡ false =
        not_above _ _ shape.small in
      rw (has_exponent_mark-eq, match_scientific-eq, within)
