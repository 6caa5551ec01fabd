-- ===== src/ChannelAccounts/Tools/Batches.antt =====
-- The batches of plugins/channel-accounts/src/tools/helpers.ts.
use native.Mathlib.Nat.{zero-add, suc-add, zero-mul, lt-div-mul-add, div-mul-le_self}
use colibri.Common.{
  ℕ, zero, suc, ◌+◌, ◌-◌, ◌*◌, ◌/◌, ◌≤◌, ◌<◌, ◌≡◌, refl, sym, ap, ◌∙◌, List, [], ◌∷◌, ◌++◌, All,
  length, take, drop, length-take, length-drop, arith,
}
use colibri.ChannelAccounts.Tools.{GivenAccount, chunks_from, chunk_channels}

abbrev pub concat {ℓ} : {A : Type ℓ} → List (List A) → List A
concat [] = []
concat (xs ∷ xss) = xs ++ concat xss

module _ {ℓ} {A : Type ℓ} where
  take-nil : (n : ℕ) → take {A = A} n [] ≡ []
  take-nil zero = refl
  take-nil (suc n) = refl

  drop-nil : (n : ℕ) → drop {A = A} n [] ≡ []
  drop-nil zero = refl
  drop-nil (suc n) = refl

  take-add : (m n : ℕ) (xs : List A) → take (m + n) xs ≡ take m xs ++ take n (drop m xs)
  take-add zero n xs = rw zero-add
  take-add (suc m) n [] = take-nil (suc m + n) ∙ sym (take-nil n)
  take-add (suc m) n (x ∷ xs) = rw suc-add (ap (λ r. x ∷ r) (take-add m n xs))

  drop-add : (m n : ℕ) (xs : List A) → drop (m + n) xs ≡ drop n (drop m xs)
  drop-add zero n xs = rw zero-add
  drop-add (suc m) n [] = drop-nil (suc m + n) ∙ sym (drop-nil n)
  drop-add (suc m) n (x ∷ xs) = rw suc-add (drop-add m n xs)

  take-le : (n : ℕ) (xs : List A) → length xs ≤ n → take n xs ≡ xs
  take-le zero [] h = refl
  take-le zero (x ∷ xs) h = absurd (omega arith)
  take-le (suc n) [] h = refl
  take-le (suc n) (x ∷ xs) h = ap (λ r. x ∷ r) (take-le n xs (omega arith))

next_start : (index size : ℕ) → (index + 1) * size ≡ index * size + size
next_start index size = grind arith

width : (index size : ℕ) → (index + 1) * size - index * size ≡ size
width index size = omega (arith, next_start index size)

concat-chunks_from :
    (channels : List GivenAccount) (size index left : ℕ)
    → concat (chunks_from channels size index left)
      ≡ take (left * size) (drop (index * size) channels)
unfolding chunks_from
concat-chunks_from channels size index zero = rw zero-mul
concat-chunks_from channels size index (suc left) =
    let total : suc left * size ≡ size + left * size = grind arith in
    rw (
      width index size,
      total,
      concat-chunks_from channels size (index + 1) left,
      next_start index size,
      take-add size (left * size) (drop (index * size) channels),
      drop-add (index * size) size channels,
    )

-- No batch is empty or larger than the size.
abbrev pub IsBatch : ℕ → List GivenAccount → Type 0
IsBatch size batch = (0 < length batch) × (length batch ≤ size)

chunks_from-IsBatch :
    (channels : List GivenAccount) (size index left : ℕ)
    → 0 < size
    → (index + left) * size < length channels + size
    → All (IsBatch size) (chunks_from channels size index left)
unfolding chunks_from
chunks_from-IsBatch channels size index zero some_size enough = tt
chunks_from-IsBatch channels size index (suc left) some_size enough =
    let end : (index + suc left) * size ≡ index * size + size + left * size = grind arith in
    let same : index + 1 + left ≡ index + suc left = omega arith in
    rw (width index size) (
      (
        omega (
          arith,
          end,
          length-take size (drop (index * size) channels),
          length-drop (index * size) channels,
        ),
        omega (arith, length-take size (drop (index * size) channels)),
      ),
      chunks_from-IsBatch channels size (index + 1) left some_size (rw same enough),
    )

-- The batches are the channels in order, and their number is right for the size.
pub chunk_channels_lem :
    (channels : List GivenAccount) (size : ℕ)
    → 0 < size
    → (concat (chunk_channels channels size) ≡ channels)
      × All (IsBatch size) (chunk_channels channels size)
unfolding chunk_channels
chunk_channels_lem channels size some_size =
    let sum : ℕ = length channels + size - 1 in
    let above : sum < sum / size * size + size = lt-div-mul-add some_size in
    let below : sum / size * size ≤ sum = div-mul-le_self sum size in
    (
      concat-chunks_from channels size 0 (sum / size)
          ∙ rw zero-mul (take-le (sum / size * size) channels (omega arith)),
      chunks_from-IsBatch channels size 0 (sum / size) some_size (rw zero-add (omega arith)),
    )
