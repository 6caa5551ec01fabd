-- ===== src/Units/Shapes.antt =====
-- What the regular expressions of core/common/helpers/format-units.ts find in a text of known shape.
use colibri.Common.{
  ℕ, zero, suc, ◌≤◌, ◌<◌, ◌≡◌, refl, Bool, true, false, not, ◌&&◌, ◌||◌, [], ◌∷◌, ◌++◌, append-nil,
  Text, ◌==◌, length, take, drop, is_digit, all_digits, ok, ℤ, pos, negsuc, arith,
}
use colibri.Units.{
  ExcessFraction, refuse, truncate, is_space, trim_start, push_kept, trim_end, trim, span_digits,
  fraction_at, is_exponent_mark, push_digit, strip_trailing_zeros, has_exponent_mark,
  expand_scientific, match_plain, with_fraction, sign_text, fit_fraction, from_parts, from_unsigned,
  base_units,
}

-- No digit stands at the front.
abbrev pub stops : Text → Bool
stops [] = true
stops (c ∷ s) = not (is_digit c)

pub span_digits-append :
    (s t : Text) → all_digits s ≡ true → stops t ≡ true → span_digits (s ++ t) ≡ (s, t)
unfolding span_digits all_digits
span_digits-append [] [] hs ht = refl
span_digits-append [] (c ∷ t) hs ht = ground arith
span_digits-append (c ∷ s) t hs ht =
    let digit : is_digit c ≡ true = ground arith in
    rw (digit, span_digits-append s t (ground arith) ht)

pub fraction_at-point :
    (f t : Text) → all_digits f ≡ true → stops t ≡ true → fraction_at (b'.' ∷ (f ++ t)) ≡ (f, t)
unfolding fraction_at
fraction_at-point f t hf ht = span_digits-append f t hf ht

-- Digits, points and a sign.
abbrev pub is_plain : ℕ → Bool
is_plain c = is_digit c || c == b'.' || c == b'-'

pub all_plain : Text → Bool
all_plain [] = true
all_plain (c ∷ s) = is_plain c && all_plain s

pub all_plain-append :
    (s t : Text) → all_plain s ≡ true → all_plain t ≡ true → all_plain (s ++ t) ≡ true
unfolding all_plain
all_plain-append [] t hs ht = ht
all_plain-append (c ∷ s) t hs ht = ground (arith, all_plain-append s t)

pub all_plain-digits : (s : Text) → all_digits s ≡ true → all_plain s ≡ true
unfolding all_plain all_digits
all_plain-digits [] h = refl
all_plain-digits (c ∷ s) h = ground (arith, all_plain-digits s)

plain_kept : (c : ℕ) → is_plain c ≡ true → (is_space c ≡ false) × (is_exponent_mark c ≡ false)
unfolding is_space is_exponent_mark is_digit
plain_kept c h = ground arith

-- No white space.
unfoldable pub is_solid : Text → Bool
is_solid [] = true
is_solid (c ∷ s) = not (is_space c) && is_solid s

pub is_solid-append :
    (s t : Text) → is_solid s ≡ true → is_solid t ≡ true → is_solid (s ++ t) ≡ true
unfolding is_solid
is_solid-append [] t hs ht = ht
is_solid-append (c ∷ s) t hs ht = ground (arith, is_solid-append s t)

pub is_solid-plain : (s : Text) → all_plain s ≡ true → is_solid s ≡ true
unfolding is_solid all_plain
is_solid-plain [] h = refl
is_solid-plain (c ∷ s) h = ground (arith, plain_kept c, is_solid-plain s)

push_kept-solid : (c : ℕ) (s : Text) → is_space c ≡ false → push_kept c s ≡ c ∷ s
unfolding push_kept
push_kept-solid c [] h = rw h
push_kept-solid c (d ∷ s) h = refl

trim_start-solid : (s : Text) → is_solid s ≡ true → trim_start s ≡ s
unfolding trim_start is_solid
trim_start-solid [] h = refl
trim_start-solid (c ∷ s) h = let kept : is_space c ≡ false = ground arith in rw kept

trim_end-solid : (s : Text) → is_solid s ≡ true → trim_end s ≡ s
unfolding trim_end is_solid
trim_end-solid [] h = refl
trim_end-solid (c ∷ s) h = rw (trim_end-solid s (ground arith)) (push_kept-solid c s (ground arith))

pub trim-solid : (s : Text) → is_solid s ≡ true → trim s ≡ s
unfolding trim
trim-solid s h = rw (trim_start-solid s h) (trim_end-solid s h)

pub trim-plain : (s : Text) → all_plain s ≡ true → trim s ≡ s
trim-plain s h = trim-solid s (is_solid-plain s h)

pub has_exponent_mark-plain : (s : Text) → all_plain s ≡ true → has_exponent_mark s ≡ false
unfolding has_exponent_mark all_plain
has_exponent_mark-plain [] h = refl
has_exponent_mark-plain (c ∷ s) h =
    rw ((plain_kept c (ground arith)).1, has_exponent_mark-plain s (ground arith))

pub expand_scientific-plain : (s : Text) → all_plain s ≡ true → expand_scientific s ≡ ok s
unfolding expand_scientific
expand_scientific-plain s h = rw (has_exponent_mark-plain s h)

pub match_plain-with_fraction :
    (w f : Text)
    → all_digits w ≡ true
    → all_digits f ≡ true
    → match_plain (with_fraction w f) ≡ (w, f)
unfolding match_plain fraction_at is_digit
match_plain-with_fraction w [] hw hf =
    let front : span_digits w ≡ (w, []) =
      (rw (append-nil w) at (span_digits-append w [] hw refl)) in
    rw (front, fraction_at)
match_plain-with_fraction w (c ∷ f) hw hf =
    let back : fraction_at (b'.' ∷ c ∷ f) ≡ (c ∷ f, []) =
      (rw (append-nil (c ∷ f)) at (fraction_at-point (c ∷ f) [] hf refl)) in
    rw (span_digits-append w (b'.' ∷ c ∷ f) hw refl, back)

pub all_plain-with_fraction :
    (w f : Text) → all_digits w ≡ true → all_digits f ≡ true → all_plain (with_fraction w f) ≡ true
unfolding all_plain is_digit
all_plain-with_fraction w [] hw hf = all_plain-digits w hw
all_plain-with_fraction w (c ∷ f) hw hf =
    all_plain-append w (b'.' ∷ c ∷ f) (all_plain-digits w hw) (all_plain-digits (c ∷ f) hf)

fit_fraction-short :
    (raw : Text) (d : ℕ) (excess : ExcessFraction) (f : Text)
    → length f ≤ d
    → fit_fraction raw d excess f ≡ ok f
unfolding fit_fraction
fit_fraction-short raw d truncate f h = ground arith
fit_fraction-short raw d refuse f h = ground arith

-- A text of digits with an optional fraction is read as it stands.
pub from_unsigned-plain :
    (raw : Text) (d : ℕ) (excess : ExcessFraction) (negative : Bool) (w f : Text)
    → all_digits w ≡ true
    → all_digits f ≡ true
    → 0 < length w
    → length f ≤ d
    → from_unsigned raw d excess negative (with_fraction w f) ≡ ok (base_units negative d w f)
unfolding from_unsigned from_parts
from_unsigned-plain raw d excess negative [] f hw hf some_digits h = elim some_digits [ ]
from_unsigned-plain raw d excess negative (c ∷ w) f hw hf some_digits h =
    rw
      (
        expand_scientific-plain _ (all_plain-with_fraction (c ∷ w) f hw hf),
        match_plain-with_fraction (c ∷ w) f hw hf,
        fit_fraction-short raw d excess f h,
      )
      (ground arith)

pub all_digits-take : (n : ℕ) (s : Text) → all_digits s ≡ true → all_digits (take n s) ≡ true
unfolding all_digits
all_digits-take zero s h = refl
all_digits-take (suc n) [] h = refl
all_digits-take (suc n) (c ∷ s) h = ground (arith, all_digits-take n s)

pub all_digits-drop : (n : ℕ) (s : Text) → all_digits s ≡ true → all_digits (drop n s) ≡ true
unfolding all_digits
all_digits-drop zero s h = h
all_digits-drop (suc n) [] h = refl
all_digits-drop (suc n) (c ∷ s) h = all_digits-drop n s (ground arith)

all_digits-push_digit :
    (c : ℕ) (s : Text)
    → is_digit c ≡ true
    → all_digits s ≡ true
    → all_digits (push_digit c s) ≡ true
unfolding push_digit all_digits
all_digits-push_digit c [] hc hs = ground arith
all_digits-push_digit c (d ∷ s) hc hs = ground arith

pub all_digits-strip : (s : Text) → all_digits s ≡ true → all_digits (strip_trailing_zeros s) ≡ true
unfolding strip_trailing_zeros all_digits
all_digits-strip [] h = refl
all_digits-strip (c ∷ s) h =
    all_digits-push_digit c (strip_trailing_zeros s) (ground arith)
      (all_digits-strip s (ground arith))

length-push_digit : (c : ℕ) (s : Text) → length (push_digit c s) ≤ suc (length s)
unfolding push_digit
length-push_digit c [] = ground arith
length-push_digit c (d ∷ s) = omega arith

pub length-strip : (s : Text) → length (strip_trailing_zeros s) ≤ length s
unfolding strip_trailing_zeros
length-strip [] = omega arith
length-strip (c ∷ s) = omega (arith, length-push_digit c (strip_trailing_zeros s), length-strip s)

pub all_plain-printed :
    (amount : ℤ) (w f : Text)
    → all_digits w ≡ true
    → all_digits f ≡ true
    → all_plain (sign_text amount ++ with_fraction w f) ≡ true
unfolding all_plain is_digit
all_plain-printed (pos n) w f hw hf = all_plain-with_fraction w f hw hf
all_plain-printed (negsuc n) w f hw hf = all_plain-with_fraction w f hw hf
