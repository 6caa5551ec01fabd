-- ===== src/Units/Expansion.antt =====
-- What `expandScientific` of core/common/helpers/format-units.ts writes stands for the same number.
use colibri.Common.{
  ℕ, zero, suc, ◌+◌, ◌-◌, ◌*◌, ◌^◌, ◌≤◌, ◌<◌, ◌≡◌, refl, ap, ◌∙◌, Bool, true, false, inl, inr, [],
  ◌∷◌, ◌++◌, append-nil, Text, Bool-cases, leb, length, take, drop, replicate, is_digit, all_digits,
  decimal_value, length-append, length-replicate, length-drop, length-take, take-drop, ten_pow-add,
  decimal_value-append-zeros, decimal_value-zeros-append, decimal_value-zero_head, if◌then◌else◌,
  arith,
}
use colibri.Units.{Scientific, place_point, expand, with_fraction}
use colibri.Units.Shapes.{all_digits-take, all_digits-drop}

-- `w.g` stands for the number `i.f` times ten to the power `up`, divided by ten to the power `down`.
pub record Denotes (i f : Text) (up down : ℕ) (w g : Text) : Type 0 where
  pub whole_digits : all_digits w ≡ true
  pub fraction_digits : all_digits g ≡ true
  pub some_digits : 0 < length w
  pub value :
      decimal_value (w ++ g) * 10 ^ (length f + down)
      ≡ decimal_value (i ++ f) * 10 ^ (length g + up)

all_digits-append :
    (s t : Text) → all_digits s ≡ true → all_digits t ≡ true → all_digits (s ++ t) ≡ true
unfolding all_digits
all_digits-append [] t hs ht = ht
all_digits-append (c ∷ s) t hs ht = ground (arith, all_digits-append s t)

all_digits-replicate : (n : ℕ) → all_digits (replicate n b'0') ≡ true
unfolding all_digits is_digit
all_digits-replicate zero = refl
all_digits-replicate (suc n) = all_digits-replicate n

with_fraction-point : (w g : Text) → 0 < length g → w ++ b'.' ∷ g ≡ with_fraction w g
with_fraction-point w [] h = elim h [ ]
with_fraction-point w (c ∷ g) h = refl

scale : (v d x y z : ℕ) → v ≡ d * 10 ^ x → x + y ≡ z → v * 10 ^ y ≡ d * 10 ^ z
scale v d x y z hv hz =
    let product : d * 10 ^ x * 10 ^ y ≡ d * (10 ^ x * 10 ^ y) = grind arith in
    rw (hv, ← hz, ten_pow-add x y) product

module _ (i f : Text) (hi : all_digits i ≡ true) (hf : all_digits f ≡ true)
    (nonempty : 0 < length i) where
  digits-all_digits : all_digits (i ++ f) ≡ true
  digits-all_digits = all_digits-append i f hi hf

  module _ (up down p : ℕ) (at_point : p + down ≡ length i + up) (some_place : 0 < p) where
    behind-Denotes :
        length (i ++ f) ≤ p
        → Denotes i f up down ((i ++ f) ++ replicate (p - length (i ++ f)) b'0') []
    unfolding all_digits
    behind-Denotes behind =
        let zeros : Text = replicate (p - length (i ++ f)) b'0' in
        record {
          whole_digits =
              all_digits-append (i ++ f) zeros digits-all_digits
                (all_digits-replicate (p - length (i ++ f)));
          fraction_digits = refl;
          some_digits = omega (arith, length-append (i ++ f) zeros, length-append i f);
          value =
              scale _ (decimal_value (i ++ f)) (p - length (i ++ f)) (length f + down) (0 + up)
                (ap decimal_value (append-nil ((i ++ f) ++ zeros))
                  ∙ decimal_value-append-zeros (i ++ f) (p - length (i ++ f)))
                (omega (arith, length-append i f));
        }

    among-Denotes : p < length (i ++ f) → Denotes i f up down (take p (i ++ f)) (drop p (i ++ f))
    among-Denotes among = record {
      whole_digits = all_digits-take p (i ++ f) digits-all_digits;
      fraction_digits = all_digits-drop p (i ++ f) digits-all_digits;
      some_digits = omega (arith, length-take p (i ++ f));
      value =
          ap (λ (t : Text). decimal_value t * 10 ^ (length f + down)) (take-drop p (i ++ f))
          ∙ ap (λ (n : ℕ). decimal_value (i ++ f) * 10 ^ n)
              (omega (arith, length-drop p (i ++ f), length-append i f));
    }

    -- The point behind or among the digits.
    place_point-Denotes :
        (w : Text) × (g : Text) × (place_point (i ++ f) p ≡ with_fraction w g)
        × Denotes i f up down w g
    unfolding place_point
    place_point-Denotes = elim (Bool-cases (leb (length (i ++ f)) p)) [
      | inl behind ↦ (_, [], rw behind, behind-Denotes (ground arith))
      | inr among ↦ (
        take p (i ++ f),
        drop p (i ++ f),
        rw among (
            with_fraction-point _ _ (
              let short : p < length (i ++ f) = ground arith in
              omega (arith, length-drop p (i ++ f)))),
        among-Denotes (ground arith),
      )
    ]

  -- Zeros between the point and the digits.
  before-Denotes :
      (e : ℕ)
      → length i ≤ e
      → Denotes i f 0 e (b'0' ∷ []) (replicate (e - length i) b'0' ++ (i ++ f))
  unfolding all_digits is_digit
  before-Denotes e far =
      let zeros : Text = replicate (e - length i) b'0' in
      record {
        whole_digits = refl;
        fraction_digits =
            all_digits-append zeros (i ++ f) (all_digits-replicate (e - length i))
              digits-all_digits;
        some_digits = omega arith;
        value =
            ap (λ (n : ℕ). n * 10 ^ (length f + e))
              (decimal_value-zero_head (zeros ++ (i ++ f))
                ∙ decimal_value-zeros-append (e - length i) (i ++ f))
            ∙ ap (λ (n : ℕ). decimal_value (i ++ f) * 10 ^ n)
                (omega (
                  arith,
                  length-append zeros (i ++ f),
                  length-append i f,
                  length-replicate {A = ℕ} (e - length i) b'0',
                ));
      }

  -- The expanded text means the same number.
  pub expand-Denotes :
      (sign : Bool) (m : Text) (e : ℕ)
      → let s : Scientific = record {
        int_part = i;
        frac_part = f;
        negative = sign;
        magnitude = m;
      } in
        (w : Text) × (g : Text) × (expand s e ≡ with_fraction w g)
        × Denotes i f (if sign then 0 else e) (if sign then e else 0) w g
  unfolding expand
  expand-Denotes false m e = place_point-Denotes e 0 (length i + e) (omega arith) (omega arith)
  expand-Denotes true m e = elim (Bool-cases (leb (length i) e)) [
    | inl far ↦ (
      b'0' ∷ [],
      replicate (e - length i) b'0' ++ (i ++ f),
      rw far (
          with_fraction-point (b'0' ∷ []) _ (
            omega
              (arith, length-append (replicate (e - length i) b'0') (i ++ f), length-append i f))),
      before-Denotes e (ground arith),
    )
    | inr near ↦
        let short : e < length i = ground arith in
        rw near (place_point-Denotes 0 e (length i - e) (omega arith) (omega arith))
  ]
