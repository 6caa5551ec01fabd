-- ===== src/Sep10/Guards/Agree.antt =====
-- The guards of sep10/src/utils accept what the parsers of challenge.ts accept.
use colibri.Common.{
  ◌≡◌, refl, sym, ◌↔◌, Bool, true, false, none, some, Text, Result, ok, err, arith, Option-cases,
  Result-cases, inl, inr,
}
use colibri.Sep10.Transaction.{Transaction, Sdk}
use colibri.Sep10.Challenge.{
  Challenge, ChallengeError, first_operation, bounds_of, source_of, nonce_of, memo_of,
  from_transaction, from_xdr, decoded,
}
use colibri.Sep10.Guards.{
  first_is_challenge, is_challenge_transaction, decoded_is_challenge, is_challenge_xdr,
  parse_challenge_xdr,
}

-- Whether a run ends without an error.
abbrev is_ok {ℓ κ} : {E : Type ℓ} {A : Type κ} → Result E A → Bool
is_ok (ok a) = true
is_ok (err e) = false

is_ok-from_transaction :
    (sdk : Sdk) (t : Transaction) (p : Text)
    → is_ok (from_transaction sdk t p) ≡ is_challenge_transaction t
unfolding is_challenge_transaction first_is_challenge from_transaction first_operation bounds_of
    source_of nonce_of memo_of
is_ok-from_transaction sdk t p = ground arith

is_ok_iff {ℓ κ} :
    {E : Type ℓ} {A : Type κ} (m : Result E A) → (is_ok m ≡ true) ↔ ((a : A) × (m ≡ ok a))
is_ok_iff (ok a) = (λ h. (a, refl), λ h. refl)
is_ok_iff (err e) = ((λ h. ground arith), (λ h. ground arith))

-- `isChallengeTransaction` returns true for exactly the transactions from which `fromTransaction` makes
-- a challenge, on any passphrase: neither has a check that the other lacks.
pub is_challenge_transaction_iff :
    (sdk : Sdk) (t : Transaction) (p : Text)
    → (is_challenge_transaction t ≡ true) ↔ ((c : Challenge) × (from_transaction sdk t p ≡ ok c))
is_challenge_transaction_iff sdk t p =
    rw (is_ok-from_transaction sdk t p) at (is_ok_iff (from_transaction sdk t p))

is_ok-from_xdr :
    (sdk : Sdk) (xdr p : Text) → is_ok (from_xdr sdk xdr p) ≡ is_challenge_xdr sdk xdr p
unfolding from_xdr decoded is_challenge_xdr decoded_is_challenge
is_ok-from_xdr sdk xdr p = elim (Option-cases (sdk.from_xdr xdr p)) [
  | inl h ↦ rw h refl
  | inr (t, h) ↦ rw h (is_ok-from_transaction sdk t p)
]

-- `isChallengeXDR` returns true for exactly the texts from which `parseChallengeXDR` returns a
-- challenge, and `parseChallengeXDR` returns null where `fromXDR` throws.
pub is_challenge_xdr_iff :
    (sdk : Sdk) (xdr p : Text)
    → ((is_challenge_xdr sdk xdr p ≡ true)
        ↔ ((c : Challenge) × (parse_challenge_xdr sdk xdr p ≡ some c)))
      × ((e : ChallengeError) → from_xdr sdk xdr p ≡ err e → parse_challenge_xdr sdk xdr p ≡ none)
unfolding parse_challenge_xdr
is_challenge_xdr_iff sdk xdr p =
    rw (sym (is_ok-from_xdr sdk xdr p)) (elim (Result-cases (from_xdr sdk xdr p)) [
      | inl (c, h) ↦ rw h ((λ _. (c, refl), λ _. refl), λ e k. ground arith)
      | inr (e, h) ↦ rw h ((λ k. ground arith, λ k. ground arith), λ e k. refl)
    ])
