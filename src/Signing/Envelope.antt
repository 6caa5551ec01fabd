-- ===== src/Signing/Envelope.antt =====
-- core/processes/envelope-signing-requirements/index.ts: the requirements of a whole envelope.
pub mod Merge
pub mod Coverage
pub mod Success
use colibri.Common.{
  push_some, Option, none, some, List, [], ◌∷◌, Text, text_eq, Result, ok, err, if◌then◌else◌,
  ◌>>=◌, rethrow,
}
use colibri.Strkey.{is_ed25519_public_key, is_muxed_address}
use colibri.Address.{AddressError, MuxedSdk, muxed_address_to_base_account}
use colibri.Signing.Threshold.{
  OperationThreshold, max_threshold, Operation, Signer, source_account, address,
  SignatureRequirementRaw, ThresholdError, get_required_operation_threshold,
}

pub record SignatureRequirement : Type 0 where
  pub address : Text
  pub threshold_level : OperationThreshold

-- `isFeeBumpTransaction`, `isTransaction`, or neither.
pub data Envelope : Type 0 where
  fee_bump : (fee_source : Text) → Envelope
  transaction : (source : Text) → List Operation → Envelope
  neither : Envelope

pub data EnvelopeCause : Type 0 where
  invalid_source_address : EnvelopeCause
  muxed : AddressError → EnvelopeCause
  operation : ThresholdError → EnvelopeCause

pub data EnvelopeError : Type 0 where
  failed_for_fee_bump failed_for_transaction : EnvelopeCause → EnvelopeError
  invalid_transaction_type : EnvelopeError

unfoldable pub source_to_address : MuxedSdk → Text → Result EnvelopeCause Text
source_to_address sdk source =
    if is_muxed_address source
    then rethrow muxed (muxed_address_to_base_account sdk source)
    else if is_ed25519_public_key source
    then ok source
    else err invalid_source_address

-- One round of the loop: `findIndex`, then a push or an update in place.
unfoldable pub merge_requirement :
    Text → OperationThreshold → List SignatureRequirement → List SignatureRequirement
merge_requirement public_key threshold [] =
    record { address = public_key; threshold_level = threshold } ∷ []
merge_requirement public_key threshold (r ∷ bundle) =
    if text_eq r.address public_key
    then record r { threshold_level = max_threshold r.threshold_level threshold } ∷ bundle
    else r ∷ merge_requirement public_key threshold bundle

abbrev pub public_key_of : Text → Signer → Text
public_key_of source source_account = source
public_key_of source (address a) = a

unfoldable pub merge_all :
    Text → List SignatureRequirementRaw → List SignatureRequirement → List SignatureRequirement
unfolding merge_requirement
merge_all source [] bundle = bundle
merge_all source (r ∷ rest) bundle =
    merge_all source rest
      (merge_requirement (public_key_of source r.signer) r.threshold_level bundle)

unfoldable pub remove_conflicting_requirements :
    List SignatureRequirementRaw → SignatureRequirement → List SignatureRequirement
unfolding merge_all
remove_conflicting_requirements operation_requirements source_requirement =
    merge_all source_requirement.address operation_requirements (source_requirement ∷ [])

unfoldable pub operation_requirements :
    MuxedSdk → List Operation → Result EnvelopeCause (List SignatureRequirementRaw)
operation_requirements sdk [] = ok []
operation_requirements sdk (op ∷ ops) =
    rethrow operation (get_required_operation_threshold sdk op) >>= λ r.
    operation_requirements sdk ops >>= λ rest. ok (push_some r rest)

fee_bump_requirements : MuxedSdk → Text → Result EnvelopeCause (List SignatureRequirement)
fee_bump_requirements sdk fee_source = source_to_address sdk fee_source >>= λ a.
    ok (record { address = a; threshold_level = OperationThreshold.low } ∷ [])

transaction_requirements :
    MuxedSdk → Text → List Operation → Result EnvelopeCause (List SignatureRequirement)
transaction_requirements sdk source operations = do
  a ← source_to_address sdk source
  requirements ← operation_requirements sdk operations
  ok (
      remove_conflicting_requirements requirements
        (record { address = a; threshold_level = OperationThreshold.medium }))

unfoldable pub envelope_signing_requirements :
    MuxedSdk → Envelope → Result EnvelopeError (List SignatureRequirement)
unfolding fee_bump_requirements transaction_requirements
envelope_signing_requirements sdk (fee_bump fee_source) =
    rethrow failed_for_fee_bump (fee_bump_requirements sdk fee_source)
envelope_signing_requirements sdk (transaction source operations) =
    rethrow failed_for_transaction (transaction_requirements sdk source operations)
envelope_signing_requirements sdk neither = err invalid_transaction_type
