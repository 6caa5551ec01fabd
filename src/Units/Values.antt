-- ===== src/Units/Values.antt =====
-- What the text operations of core/common/helpers/format-units.ts do to the value of a text of digits.
use colibri.Common.{
  ℕ, zero, suc, ◌+◌, ◌-◌, ◌*◌, ◌^◌, ◌≤◌, ◌≡◌, refl, sym, ap, ◌∙◌, Bool, ◌&&◌, inl, inr, [], ◌∷◌,
  ◌++◌, Text, Bool-cases, ◌==◌, length, replicate, length-append, length-replicate, is_digit,
  decimal_value, ℤ, pos, if◌then◌else◌, arith, decimal_value-append, decimal_value-append-zeros,
  decimal_value-zero_head,
}
use colibri.Units.{
  strip_leading_zeros, strip_trailing_zeros, push_digit, pad_end, or_text, base_units, neg,
}

-- Leading zeros do not count.
pub decimal_value-strip : (s : Text) → decimal_value (strip_leading_zeros s) ≡ decimal_value s
unfolding strip_leading_zeros
decimal_value-strip [] = refl
decimal_value-strip (c ∷ []) = refl
decimal_value-strip (c ∷ d ∷ s) = elim (Bool-cases (c == b'0' && is_digit d)) [
  | inl more ↦
      let zero_head : c ≡ b'0' = ground arith in
      rw (more, zero_head) (decimal_value-strip (d ∷ s) ∙ sym (decimal_value-zero_head (d ∷ s)))
  | inr done ↦ rw done
]

pad_end-push_digit : (c : ℕ) (s : Text) (d : ℕ) → pad_end (suc d) (push_digit c s) ≡ c ∷ pad_end d s
unfolding push_digit
pad_end-push_digit c [] d = elim (Bool-cases (c == b'0')) [
  | inl digit ↦
      let zero_digit : c ≡ b'0' = ground arith in
      let longer : suc d - 0 ≡ suc (d - 0) = omega arith in rw (zero_digit, longer)
  | inr other ↦ rw other (ap (λ (n : ℕ). c ∷ replicate n b'0') (omega arith))
]
pad_end-push_digit c (a ∷ s) d = ap (λ (n : ℕ). c ∷ a ∷ (s ++ replicate n b'0')) (omega arith)

-- Padding puts trailing zeros back.
pub pad_end-strip :
    (s : Text) (d : ℕ) → length s ≤ d → pad_end d (strip_trailing_zeros s) ≡ pad_end d s
unfolding strip_trailing_zeros
pad_end-strip [] d h = refl
pad_end-strip (c ∷ s) zero h = absurd (omega arith)
pad_end-strip (c ∷ s) (suc d) h =
    pad_end-push_digit c (strip_trailing_zeros s) d
    ∙ ap (λ (t : Text). c ∷ t) (pad_end-strip s d (omega arith))
    ∙ ap (λ (n : ℕ). c ∷ (s ++ replicate n b'0')) (omega arith)

pub length-pad_end : (s : Text) (d : ℕ) → length s ≤ d → length (pad_end d s) ≡ d
length-pad_end s d h = omega (
  arith,
  length-append s (replicate (d - length s) b'0'),
  length-replicate {A = ℕ} (d - length s) b'0',
)

decimal_value-or_text : (s : Text) → decimal_value (or_text s (b'0' ∷ [])) ≡ decimal_value s
unfolding decimal_value
decimal_value-or_text [] = refl
decimal_value-or_text (c ∷ s) = refl

abbrev pub signed : Bool → ℕ → ℤ
signed negative n = if negative then neg n else pos n

-- The units of `whole.frac`.
pub base_units-eq :
    (negative : Bool) (d : ℕ) (w f : Text)
    → length f ≤ d
    → base_units negative d w f
      ≡ signed negative (decimal_value w * 10 ^ d + decimal_value f * 10 ^ (d - length f))
unfolding base_units
base_units-eq negative d w f h =
    ap (λ (t : ℕ). signed negative t)
      (decimal_value-strip (strip_leading_zeros (or_text w (b'0' ∷ [])) ++ pad_end d f)
        ∙ decimal_value-append (strip_leading_zeros (or_text w (b'0' ∷ []))) (pad_end d f)
        ∙ rw (
          decimal_value-strip,
          decimal_value-or_text,
          length-pad_end f d h,
          decimal_value-append-zeros,
        ))
