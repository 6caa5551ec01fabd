-- ===== src/Common/Bits.antt =====
-- The `|`, `&`, `<<` and `>>` of JavaScript's BigInt on numbers that are not negative: a field packed
-- above a narrower one, and the mask that reads it back.
use Prim.Native.Nat.{
  ℕ, zero, suc, ◌+◌, ◌-◌, ◌*◌, ◌/◌, ◌%◌, ◌^◌, ◌≤◌, ◌<◌, min, max, digits, bit_and, bit_or,
  bit_and-bitwise, bit_or-bitwise,
}
use mathlib.Core.Path.{◌≡◌, refl, ap}
use native.Mathlib.Nat.{pow-suc, one-le-pow}
use native.Mathlib.Omega.{arith}

abbrev pub shift_left : ℕ → ℕ → ℕ
shift_left a k = a * 2 ^ k

abbrev pub shift_right : ℕ → ℕ → ℕ
shift_right a k = a / 2 ^ k

-- The recursion that the operations stand for gives one result on any fuel that suffices.
module _ (rest : ℕ → ℕ) (digit : ℕ → ℕ → ℕ) where
  same_digits : (f a b g : ℕ) → a ≤ f → a ≤ g → digits rest digit f a b ≡ digits rest digit g a b
  same_digits zero zero b zero h k = refl
  same_digits zero zero b (suc g) h k = refl
  same_digits zero (suc a) b g h k = elim h [ ]
  same_digits (suc f) zero b zero h k = refl
  same_digits (suc f) zero b (suc g) h k = refl
  same_digits (suc f) (suc a) b zero h k = elim k [ ]
  same_digits (suc f) (suc a) b (suc g) h k =
      omega (arith, same_digits f (suc a / 2) (b / 2) g (omega arith) (omega arith))

or_lowest : (a b : ℕ) → bit_or a b ≡ bit_or (a / 2) (b / 2) * 2 + max (a % 2) (b % 2)
or_lowest zero b = omega (arith, bit_or-bitwise 0 b, bit_or-bitwise 0 (b / 2))
or_lowest (suc a) b = omega (
  arith,
  bit_or-bitwise (suc a) b,
  bit_or-bitwise (suc a / 2) (b / 2),
  same_digits (λ d. d) max a (suc a / 2) (b / 2) (suc a / 2) (omega arith) (omega arith),
)

and_lowest : (a b : ℕ) → bit_and a b ≡ bit_and (a / 2) (b / 2) * 2 + min (a % 2) (b % 2)
and_lowest zero b = omega (arith, bit_and-bitwise 0 b, bit_and-bitwise 0 (b / 2))
and_lowest (suc a) b = omega (
  arith,
  bit_and-bitwise (suc a) b,
  bit_and-bitwise (suc a / 2) (b / 2),
  same_digits (λ d. 0) min a (suc a / 2) (b / 2) (suc a / 2) (omega arith) (omega arith),
)

or-zero : (f a : ℕ) → a ≤ f → bit_or a 0 ≡ a
or-zero f zero h = refl
or-zero zero (suc a) h = elim h [ ]
or-zero (suc f) (suc a) h = omega (arith, or_lowest (suc a) 0, or-zero f (suc a / 2) (omega arith))

and-zero : (f a : ℕ) → a ≤ f → bit_and a 0 ≡ 0
and-zero f zero h = refl
and-zero zero (suc a) h = elim h [ ]
and-zero (suc f) (suc a) h =
    omega (arith, and_lowest (suc a) 0, and-zero f (suc a / 2) (omega arith))

times_double : (a k : ℕ) → a * 2 ^ suc k ≡ (a * 2 ^ k) * 2
times_double a k = omega (arith, ap (λ (t : ℕ). a * t) (pow-suc 2 k))

-- `(a << k) | b` is `a * 2 ^ k + b` where `b` fits `k` bits.
pub or_packs : (k a b : ℕ) → b < 2 ^ k → bit_or (shift_left a k) b ≡ a * 2 ^ k + b
or_packs zero a b h = let e : b ≡ 0 = omega arith in rw e (omega (arith, or-zero (a * 1) (a * 1)))
or_packs (suc k) a b h =
    let half : b / 2 < 2 ^ k = omega (arith, pow-suc 2 k) in
    omega (
      arith,
      or_lowest (a * 2 ^ suc k) b,
      times_double a k,
      ap (λ (t : ℕ). bit_or t (b / 2)) (half_of a k),
      or_packs k a (b / 2) half,
    )
  where
    half_of : (a k : ℕ) → a * 2 ^ suc k / 2 ≡ a * 2 ^ k
    half_of a k = omega (arith, times_double a k)

half_mask : (k : ℕ) → (2 ^ suc k - 1) / 2 ≡ 2 ^ k - 1
half_mask k = omega (arith, pow-suc 2 k, one-le-pow k 2 (omega arith))

and_unpacks : (k a b : ℕ) → b < 2 ^ k → bit_and (a * 2 ^ k + b) (2 ^ k - 1) ≡ b
and_unpacks zero a b h = omega (arith, and-zero (a * 1 + b) (a * 1 + b))
and_unpacks (suc k) a b h =
    let half : b / 2 < 2 ^ k = omega (arith, pow-suc 2 k) in
    let upper : (a * 2 ^ suc k + b) / 2 ≡ a * 2 ^ k + b / 2 = omega (arith, times_double a k) in
    omega (
      arith,
      and_lowest (a * 2 ^ suc k + b) (2 ^ suc k - 1),
      times_double a k,
      pow-suc 2 k,
      one-le-pow k 2 (omega arith),
      ap (λ (t : ℕ). bit_and t ((2 ^ suc k - 1) / 2)) upper,
      ap (λ (t : ℕ). bit_and (a * 2 ^ k + b / 2) t) (half_mask k),
      and_unpacks k a (b / 2) half,
    )

-- `a & (2 ^ k - 1)` is the rest of `a` by `2 ^ k`.
pub and_mask : (k a : ℕ) → bit_and a (2 ^ k - 1) ≡ a % 2 ^ k
and_mask k a =
    let pos : 0 < 2 ^ k = one-le-pow k 2 (omega arith) in
    let split : a / 2 ^ k * 2 ^ k + a % 2 ^ k ≡ a = grind arith in
    rw split at (and_unpacks k (a / 2 ^ k) (a % 2 ^ k) (grind arith))
