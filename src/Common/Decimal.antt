-- ===== src/Common/Decimal.antt =====
-- `BigInt(s)` and `parseInt(s, 10)` on a text of digits, `n.toString()`, and the padding with zeros.
pub mod Powers
use Prim.Native.Nat.{ℕ, zero, suc, ◌+◌, ◌-◌, ◌*◌, ◌/◌, ◌%◌, ◌^◌, ◌≤◌, ◌<◌}
use mathlib.Core.Path.{◌≡◌, refl, ap, ap₂, ◌∙◌}
use mathlib.Core.Logic.{inl, inr, ◌↔◌}
use mathlib.Core.Bool.{Bool, true, ◌&&◌}
use mathlib.Core.List.{[], ◌∷◌, ◌++◌}
use native.Mathlib.Nat.{pow-suc, mul-le-mul_right}
use native.Mathlib.Omega.{arith}
use colibri.Common.Tests.{ltb, if◌then◌else◌, Bool-cases}
use colibri.Common.Lists.{length, replicate, length-append, length-replicate}
use colibri.Common.Strings.{Text, pad_start, is_digit, text_lt}

value_onto : ℕ → Text → ℕ
value_onto acc [] = acc
value_onto acc (c ∷ s) = value_onto (acc * 10 + (c - b'0')) s

unfoldable pub decimal_value : Text → ℕ
unfolding value_onto
decimal_value s = value_onto 0 s

-- The last digits first, on fuel; a number is enough fuel for itself.
digits_onto : ℕ → ℕ → Text → Text
digits_onto zero n out = out
digits_onto (suc f) n out =
    let rest = digits_onto f (n / 10) ((b'0' + n % 10) ∷ out) in
    if ltb n 10 then (b'0' + n) ∷ out else rest

unfoldable pub to_decimal : ℕ → Text
unfolding digits_onto
to_decimal n = digits_onto (suc n) n []

-- `/^\d*$/.test(s)`
unfoldable pub all_digits : Text → Bool
unfolding is_digit
all_digits [] = true
all_digits (c ∷ s) = is_digit c && all_digits s

value_onto-digits :
    (f n : ℕ) (out : Text) → n < f → value_onto 0 (digits_onto f n out) ≡ value_onto n out
unfolding value_onto digits_onto
value_onto-digits zero n out h = elim h [ ]
value_onto-digits (suc f) n out h = elim (Bool-cases (ltb n 10)) [
  | inl small ↦ rw small (ap (λ (t : ℕ). value_onto t out) (omega arith))
  | inr large ↦ rw large (
      value_onto-digits f (n / 10) ((b'0' + n % 10) ∷ out) (ground arith)
      ∙ ap (λ (t : ℕ). value_onto t out) (omega arith))
]

-- Reading back what was printed.
pub decimal_value-to_decimal : (n : ℕ) → decimal_value (to_decimal n) ≡ n
unfolding decimal_value to_decimal
decimal_value-to_decimal n = value_onto-digits (suc n) n [] (omega arith)

all_digits-digits :
    (f n : ℕ) (out : Text) → all_digits out ≡ true → all_digits (digits_onto f n out) ≡ true
unfolding digits_onto all_digits
all_digits-digits zero n out h = h
all_digits-digits (suc f) n out h = elim (Bool-cases (ltb n 10)) [
  | inl small ↦ rw small (ground arith)
  | inr large ↦ rw large (all_digits-digits f (n / 10) ((b'0' + n % 10) ∷ out) (ground arith))
]

pub all_digits-to_decimal : (n : ℕ) → all_digits (to_decimal n) ≡ true
unfolding to_decimal all_digits
all_digits-to_decimal n = all_digits-digits (suc n) n [] refl

length-digits :
    (k f n : ℕ) (out : Text) → n < 10 ^ suc k → length (digits_onto f n out) ≤ suc k + length out
unfolding digits_onto
length-digits k zero n out h = omega arith
length-digits zero (suc f) n out h = ground arith
length-digits (suc k) (suc f) n out h = elim (Bool-cases (ltb n 10)) [
  | inl small ↦ rw small (omega arith)
  | inr large ↦ rw large (
      omega (
        arith,
        length-digits k f (n / 10) ((b'0' + n % 10) ∷ out) (omega (arith, pow-suc 10 (suc k))),
      ))
]

-- A number below `10 ^ k` has at most `k` digits.
pub length-to_decimal : (k n : ℕ) → n < 10 ^ suc k → length (to_decimal n) ≤ suc k
unfolding to_decimal
length-to_decimal k n h = omega (arith, length-digits k (suc n) n [] h)

value_onto-zeros : (k : ℕ) (s : Text) → value_onto 0 (replicate k b'0' ++ s) ≡ value_onto 0 s
unfolding value_onto
value_onto-zeros zero s = refl
value_onto-zeros (suc k) s = value_onto-zeros k s

pub decimal_value-pad : (k : ℕ) (s : Text) → decimal_value (pad_start k b'0' s) ≡ decimal_value s
unfolding decimal_value
decimal_value-pad k s = value_onto-zeros (k - length s) s

all_digits-zeros :
    (k : ℕ) (s : Text) → all_digits s ≡ true → all_digits (replicate k b'0' ++ s) ≡ true
unfolding all_digits
all_digits-zeros zero s h = h
all_digits-zeros (suc k) s h = all_digits-zeros k s h

pub all_digits-pad :
    (k : ℕ) (s : Text) → all_digits s ≡ true → all_digits (pad_start k b'0' s) ≡ true
all_digits-pad k s h = all_digits-zeros (k - length s) s h

pub length-pad : (k : ℕ) (c : ℕ) (s : Text) → length s ≤ k → length (pad_start k c s) ≡ k
length-pad k c s h =
    omega (arith, length-append (replicate (k - length s) c) s, length-replicate (k - length s) c)

value_onto_injective :
    (s t : Text) (a b : ℕ)
    → length s ≡ length t
    → all_digits s ≡ true
    → all_digits t ≡ true
    → value_onto a s ≡ value_onto b t
    → (a ≡ b) × (s ≡ t)
unfolding value_onto all_digits
value_onto_injective [] [] a b l hs ht e = (e, refl)
value_onto_injective [] (d ∷ t) a b l hs ht e = absurd (omega arith)
value_onto_injective (c ∷ s) [] a b l hs ht e = absurd (omega arith)
value_onto_injective (c ∷ s) (d ∷ t) a b l hs ht e =
    let (heads, tails) =
      value_onto_injective s t (a * 10 + (c - b'0')) (b * 10 + (d - b'0')) (omega arith)
        (ground arith) (ground arith) e in
    let digits : (b'0' ≤ c) × (c ≤ b'9') × (b'0' ≤ d) × (d ≤ b'9') = ground arith in
    (omega arith, ap₂ (λ x r. x ∷ r) (omega arith) tails)

-- A text of digits is known by its length and its value.
pub decimal_value_injective :
    (s t : Text)
    → length s ≡ length t
    → all_digits s ≡ true
    → all_digits t ≡ true
    → decimal_value s ≡ decimal_value t
    → s ≡ t
unfolding decimal_value
decimal_value_injective s t l hs ht e = (value_onto_injective s t 0 0 l hs ht e).1

value_onto_bound :
    (s : Text) (a : ℕ) → all_digits s ≡ true → value_onto a s < (a + 1) * 10 ^ length s
unfolding value_onto all_digits
value_onto_bound [] a h = omega arith
value_onto_bound (c ∷ s) a h =
    let digit : (b'0' ≤ c) × (c ≤ b'9') = ground arith in
    let bound : value_onto (a * 10 + (c - b'0')) s < (a * 10 + (c - b'0') + 1) * 10 ^ length s =
      value_onto_bound s (a * 10 + (c - b'0')) (ground arith) in
    let wider : (a * 10 + (c - b'0') + 1) * 10 ^ length s ≤ (a * 10 + 10) * 10 ^ length s =
      mul-le-mul_right (10 ^ length s) (omega arith) in
    omega (arith, bound, wider, ap (λ (t : ℕ). (a + 1) * t) (pow-suc 10 (length s)))

pub decimal_value_bound : (s : Text) → all_digits s ≡ true → decimal_value s < 10 ^ length s
unfolding decimal_value
decimal_value_bound s h = omega (arith, value_onto_bound s 0 h)

value_onto_order :
    (s t : Text) (a b : ℕ)
    → length s ≡ length t
    → all_digits s ≡ true
    → all_digits t ≡ true
    → a < b
    → value_onto a s < value_onto b t
unfolding value_onto all_digits
value_onto_order [] [] a b l hs ht h = h
value_onto_order [] (d ∷ t) a b l hs ht h = absurd (omega arith)
value_onto_order (c ∷ s) [] a b l hs ht h = absurd (omega arith)
value_onto_order (c ∷ s) (d ∷ t) a b l hs ht h =
    let digit : c ≤ b'9' = ground arith in
    value_onto_order s t (a * 10 + (c - b'0')) (b * 10 + (d - b'0')) (omega arith) (ground arith)
      (ground arith) (omega arith)

value_onto-text_lt :
    (s t : Text) (a : ℕ)
    → length s ≡ length t
    → all_digits s ≡ true
    → all_digits t ≡ true
    → (text_lt s t ≡ true) ↔ (value_onto a s < value_onto a t)
unfolding value_onto all_digits text_lt
value_onto-text_lt [] [] a l hs ht = ground arith
value_onto-text_lt [] (d ∷ t) a l hs ht = absurd (omega arith)
value_onto-text_lt (c ∷ s) [] a l hs ht = absurd (omega arith)
value_onto-text_lt (c ∷ s) (d ∷ t) a l hs ht =
    let digits : (b'0' ≤ c) × (b'0' ≤ d) = ground arith in
    let tail_s : all_digits s ≡ true = ground arith in
    let tail_t : all_digits t ≡ true = ground arith in
    ground (
      arith,
      value_onto-text_lt s t (a * 10 + (c - b'0')) (omega arith) tail_s tail_t,
      value_onto_order s t (a * 10 + (c - b'0')) (a * 10 + (d - b'0')) (omega arith) tail_s tail_t,
      value_onto_order t s (a * 10 + (d - b'0')) (a * 10 + (c - b'0')) (omega arith) tail_t tail_s,
    )

-- Texts of digits of one length compare as their values do.
pub decimal_value_order :
    (s t : Text)
    → length s ≡ length t
    → all_digits s ≡ true
    → all_digits t ≡ true
    → (text_lt s t ≡ true) ↔ (decimal_value s < decimal_value t)
unfolding decimal_value
decimal_value_order s t l hs ht = value_onto-text_lt s t 0 l hs ht
