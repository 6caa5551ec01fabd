-- ===== src/Processes/WrapFeeBump.antt =====
-- core/processes/wrap-fee-bump/index.ts: the guards and the call of the SDK. The arguments that the
-- types require are given, so MISSING_ARG is not thrown.
use colibri.Common.{
  Bool, true, false, Option, none, some, Text, ℤ, pos, negsuc, ltb, ◌≡◌, refl, ◌↔◌, Result, ok, err,
  ◌>>=◌, ◌>>◌, assert,
}
use colibri.Signing.Envelope.{Envelope, fee_bump, transaction, neither}
use colibri.Processes.Sdk.{Sdk, attempt}

pub data WrapFeeBumpError : Type 0 where
  already_fee_bump not_a_transaction fee_too_low failed_to_build_fee_bump : WrapFeeBumpError

pub record FeeBumpConfig : Type 0 where
  pub source : Text
  pub fee : Text

-- `a > b` on integers.
abbrev pub greater : ℤ → ℤ → Bool
greater (pos a) (pos b) = ltb b a
greater (pos a) (negsuc b) = true
greater (negsuc a) (pos b) = false
greater (negsuc a) (negsuc b) = ltb a b

-- The same on what `parseInt` gives, where `none` is NaN.
abbrev pub parsed_greater : Option ℤ → Option ℤ → Bool
parsed_greater none b = false
parsed_greater (some a) none = false
parsed_greater (some a) (some b) = greater a b

-- The two type guards.
unfoldable pub check_inner : Envelope → Result WrapFeeBumpError (Unit {0})
check_inner (fee_bump source) = err already_fee_bump
check_inner (transaction source operations) = ok tt
check_inner neither = err not_a_transaction

-- The envelope is a transaction and no fee bump.
abbrev pub IsInner : Envelope → Type 0
IsInner (transaction source operations) = Unit
IsInner _ = ⊥

guarded_iff :
    {Tx : Type 0} (e : Envelope) (above : Bool) (built : Option Tx) (t : Tx)
    → ((check_inner e >>= λ _.
          assert above fee_too_low >>= λ _. attempt failed_to_build_fee_bump built)
        ≡ ok t)
      ↔ (IsInner e × (above ≡ true) × (built ≡ some t))
unfolding check_inner
guarded_iff (fee_bump source) above built t = (λ h. cc, λ h. absurd h.0)
guarded_iff neither above built t = (λ h. cc, λ h. absurd h.0)
guarded_iff (transaction source operations) true (some b) t = (λ h. (tt, refl, cc), λ h. cc)
guarded_iff (transaction source operations) true none t = (λ h. cc, λ h. cc)
guarded_iff (transaction source operations) false built t = (λ h. cc, λ h. cc)

module _ {Tx Op Memo Data Builder : Type 0} (sdk : Sdk Tx Op Memo Data Builder) where
  unfoldable pub wrap_fee_bump : Tx → FeeBumpConfig → Text → Result WrapFeeBumpError Tx
  wrap_fee_bump tx config network_passphrase = do
    check_inner (sdk.envelope tx)
    assert (parsed_greater (sdk.parse_int config.fee) (sdk.parse_int (sdk.fee tx))) fee_too_low
    attempt failed_to_build_fee_bump
        (sdk.build_fee_bump_transaction config.source config.fee tx network_passphrase)

  -- `wrapFeeBump` succeeds exactly for a transaction that is no fee bump, whose fee is parsed to less than
  -- that of the wrapper, and gives what the SDK builds of it.
  pub wrap_fee_bump-succeeds_iff :
      (tx : Tx) (config : FeeBumpConfig) (network_passphrase : Text) (t : Tx)
      → (wrap_fee_bump tx config network_passphrase ≡ ok t) ↔ (
          IsInner (sdk.envelope tx)
          × (parsed_greater (sdk.parse_int config.fee) (sdk.parse_int (sdk.fee tx)) ≡ true)
          × (sdk.build_fee_bump_transaction config.source config.fee tx network_passphrase
              ≡ some t))
  unfolding wrap_fee_bump
  wrap_fee_bump-succeeds_iff tx config network_passphrase t = guarded_iff _ _ _ t
