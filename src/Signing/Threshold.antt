-- ===== src/Signing/Threshold.antt =====
-- core/auth/requirements/classic-operation-threshold/index.ts: the threshold and the signer that
-- one classic operation asks for.
pub mod Options
use colibri.Common.{
  ℕ, zero, suc, Bool, true, false, ◌||◌, Option, none, some, [], ◌∷◌, Text, Result, ok, err,
  if◌then◌else◌, ltb, ◌>>=◌, rethrow,
}
use colibri.Strkey.{is_ed25519_public_key, is_muxed_address}
use colibri.Address.{AddressError, MuxedSdk, muxed_address_to_base_account}

pub data OperationThreshold : Type 0 where
  low medium high : OperationThreshold

-- The enum's numbers, and `Math.max` on them.
abbrev pub level : OperationThreshold → ℕ
level OperationThreshold.low = 1
level OperationThreshold.medium = 2
level OperationThreshold.high = 3

abbrev pub max_threshold : OperationThreshold → OperationThreshold → OperationThreshold
max_threshold a b = if ltb (level a) (level b) then b else a

-- The optional fields of a SetOptions operation that the code reads; a signer is an object.
pub record SetOptions : Type 0 where
  pub master_weight : Option ℕ
  pub signer : Bool
  pub low_threshold : Option ℕ
  pub med_threshold : Option ℕ
  pub high_threshold : Option ℕ

-- `operation.type`, with the names that the switch lists; `other` is any further string.
pub data OperationType : Type 0 where
  allow_trust bump_sequence set_trust_line_flags : OperationType
  create_account payment path_payment_strict_send path_payment_strict_receive : OperationType
  manage_sell_offer manage_buy_offer create_passive_sell_offer change_trust : OperationType
  manage_data create_claimable_balance claim_claimable_balance : OperationType
  begin_sponsoring_future_reserves end_sponsoring_future_reserves : OperationType
  clawback clawback_claimable_balance liquidity_pool_deposit liquidity_pool_withdraw : OperationType
  revoke_account_sponsorship revoke_trustline_sponsorship revoke_offer_sponsorship : OperationType
  revoke_data_sponsorship revoke_claimable_balance_sponsorship : OperationType
  revoke_liquidity_pool_sponsorship revoke_signer_sponsorship revoke_sponsorship : OperationType
  set_options : SetOptions → OperationType
  account_merge : OperationType
  other : Text → OperationType

pub record Operation : Type 0 where
  pub type_of : OperationType
  pub source : Option Text

-- `SignatureRequirementRaw["address"]`
pub data Signer : Type 0 where
  source_account : Signer
  address : Text → Signer

pub record SignatureRequirementRaw : Type 0 where
  pub signer : Signer
  pub threshold_level : OperationThreshold

pub data SourceError : Type 0 where
  invalid_source_account : SourceError
  muxed : AddressError → SourceError

-- `FAILED_TO_IDENTIFY_SIGNER_FROM_SOURCE`; nothing else in the function throws.
pub data ThresholdError : Type 0 where
  failed_to_identify_signer : SourceError → ThresholdError

set_source : MuxedSdk → Text → Result SourceError Signer
set_source sdk source =
    if is_ed25519_public_key source
    then ok (address source)
    else if is_muxed_address source
    then (rethrow muxed (muxed_address_to_base_account sdk source) >>= λ base. ok (address base))
    else err invalid_source_account

unfoldable pub set_source_signer : MuxedSdk → Option Text → Result SourceError Signer
unfolding set_source
set_source_signer sdk none = ok source_account
set_source_signer sdk (some []) = ok source_account
set_source_signer sdk (some (c ∷ s)) = set_source sdk (c ∷ s)

-- A number in a Boolean context: undefined and 0 are false.
abbrev pub truthy : Option ℕ → Bool
truthy none = false
truthy (some zero) = false
truthy (some (suc n)) = true

set_options_threshold : SetOptions → OperationThreshold
set_options_threshold o =
    if truthy o.master_weight
      || (o.signer
          || (truthy o.low_threshold || (truthy o.med_threshold || truthy o.high_threshold)))
    then OperationThreshold.high
    else OperationThreshold.medium

-- The switch; `none` is the early return of the default case.
unfoldable pub threshold_of : OperationType → Option OperationThreshold
unfolding set_options_threshold
threshold_of allow_trust = some OperationThreshold.low
threshold_of bump_sequence = some OperationThreshold.low
threshold_of set_trust_line_flags = some OperationThreshold.low
threshold_of (set_options o) = some (set_options_threshold o)
threshold_of account_merge = some OperationThreshold.high
threshold_of (other name) = none
threshold_of _ = some OperationThreshold.medium

signer_requirement :
    MuxedSdk → Option Text → OperationThreshold → Result ThresholdError SignatureRequirementRaw
signer_requirement sdk source threshold =
    rethrow failed_to_identify_signer (set_source_signer sdk source) >>= λ signer.
    ok (record { signer = signer; threshold_level = threshold })

unfoldable pub get_required_operation_threshold :
    MuxedSdk → Operation → Result ThresholdError (Option SignatureRequirementRaw)
unfolding signer_requirement
get_required_operation_threshold sdk operation = elim (threshold_of operation.type_of) [
  | none ↦ ok none
  | some threshold ↦
      signer_requirement sdk operation.source threshold >>= λ requirement. ok (some requirement)
]
