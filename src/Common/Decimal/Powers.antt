-- ===== src/Common/Decimal/Powers.antt =====
-- The value of digits that stand one after the other, in powers of ten.
use Prim.Native.Nat.{ℕ, zero, suc, ◌+◌, ◌-◌, ◌*◌, ◌/◌, ◌%◌, ◌^◌, ◌<◌}
use mathlib.Core.Path.{◌≡◌, refl, sym, ap, ◌∙◌}
use mathlib.Core.List.{[], ◌∷◌, ◌++◌}
use native.Mathlib.Nat.{pow-suc, zero-add, suc-add}
use native.Mathlib.Omega.{arith}
use colibri.Common.Lists.{length, replicate}
use colibri.Common.Strings.{Text}
use colibri.Common.Decimal.{value_onto, decimal_value, digits_onto, to_decimal}

pub ten_pow-add : (m n : ℕ) → 10 ^ (m + n) ≡ 10 ^ m * 10 ^ n
ten_pow-add zero n = rw zero-add (omega arith)
ten_pow-add (suc m) n =
    rw (suc-add, pow-suc 10 (m + n), pow-suc 10 m, ten_pow-add m n) (grind arith)

pub ten_pow_pos : (n : ℕ) → 0 < 10 ^ n
ten_pow_pos zero = omega arith
ten_pow_pos (suc n) = omega (arith, pow-suc 10 n, ten_pow_pos n)

value_onto-eq : (s : Text) (a : ℕ) → value_onto a s ≡ a * 10 ^ length s + value_onto 0 s
unfolding value_onto
value_onto-eq [] a = omega arith
value_onto-eq (c ∷ s) a =
    let p : ℕ = 10 ^ length s in
    let d : ℕ = c - b'0' in
    let split : (a * 10 + d) * p ≡ a * (p * 10) + (0 * 10 + d) * p = grind arith in
    omega (
      arith,
      value_onto-eq s (a * 10 + d),
      value_onto-eq s (0 * 10 + d),
      split,
      ap (λ (t : ℕ). a * t) (pow-suc 10 (length s)),
    )

value_onto-append : (s t : Text) (a : ℕ) → value_onto a (s ++ t) ≡ value_onto (value_onto a s) t
unfolding value_onto
value_onto-append [] t a = refl
value_onto-append (c ∷ s) t a = value_onto-append s t (a * 10 + (c - b'0'))

pub decimal_value-append :
    (s t : Text) → decimal_value (s ++ t) ≡ decimal_value s * 10 ^ length t + decimal_value t
unfolding decimal_value
decimal_value-append s t = value_onto-append s t 0 ∙ value_onto-eq t (value_onto 0 s)

value_onto-zeros : (k a : ℕ) → value_onto a (replicate k b'0') ≡ a * 10 ^ k
unfolding value_onto
value_onto-zeros zero a = omega arith
value_onto-zeros (suc k) a =
    let split : (a * 10 + (b'0' - b'0')) * 10 ^ k ≡ a * (10 ^ k * 10) = grind arith in
    value_onto-zeros k (a * 10 + (b'0' - b'0')) ∙ split ∙ ap (λ (t : ℕ). a * t) (sym (pow-suc 10 k))

-- Zeros behind a number multiply it.
pub decimal_value-append-zeros :
    (s : Text) (k : ℕ) → decimal_value (s ++ replicate k b'0') ≡ decimal_value s * 10 ^ k
unfolding decimal_value
decimal_value-append-zeros s k =
    value_onto-append s (replicate k b'0') 0 ∙ value_onto-zeros k (value_onto 0 s)

-- Zeros before a number do not count.
pub decimal_value-zeros-append :
    (k : ℕ) (s : Text) → decimal_value (replicate k b'0' ++ s) ≡ decimal_value s
unfolding decimal_value value_onto
decimal_value-zeros-append zero s = refl
decimal_value-zeros-append (suc k) s = decimal_value-zeros-append k s

pub decimal_value-zero_head : (s : Text) → decimal_value (b'0' ∷ s) ≡ decimal_value s
unfolding decimal_value value_onto
decimal_value-zero_head s = refl

length-digits_pos : (f n : ℕ) (out : Text) → 0 < length out → 0 < length (digits_onto f n out)
unfolding digits_onto
length-digits_pos zero n out h = h
length-digits_pos (suc f) n out h =
    ground (arith, length-digits_pos f (n / 10) ((b'0' + n % 10) ∷ out))

pub length-to_decimal_pos : (n : ℕ) → 0 < length (to_decimal n)
unfolding to_decimal digits_onto
length-to_decimal_pos n = ground (arith, length-digits_pos n (n / 10) ((b'0' + n % 10) ∷ []))
