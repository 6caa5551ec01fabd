-- ===== src/Signing/Tests.antt =====
-- Runs of the signing requirements on small envelopes, and instances of the theorems.
use colibri.Common.{
  ◌≡◌, refl, ◌↔◌, inl, inr, false, none, some, List, [], ◌∷◌, Text, codes, text_eq, pad_start, ◌≤◌,
  ok, All, max,
}
use colibri.Strkey.{is_muxed_address, is_ed25519_public_key}
use colibri.Address.{MuxedSdk, muxed_address_to_base_account}
use colibri.Signing.Threshold.{
  OperationThreshold, SignatureRequirementRaw, address, level, Operation, payment, account_merge,
  set_options, other, SetOptions, source_account, set_source_signer, threshold_of,
  get_required_operation_threshold,
}
use colibri.Signing.Threshold.Options.{set_options_zero-medium}
use colibri.Signing.Envelope.{
  transaction, SignatureRequirement, source_to_address, operation_requirements,
  remove_conflicting_requirements, envelope_signing_requirements,
}
use colibri.Signing.Envelope.Merge.{
  Distinct, level_in, level_if, demanded, remove_conflicting_requirements-exact,
}
use colibri.Signing.Envelope.Coverage.{Covers, envelope_signing_requirements-Covers}
use colibri.Signing.Envelope.Success.{Resolves, envelope_signing_requirements-succeeds_iff}

-- An SDK whose muxed accounts all belong to the account `alice`.
abbrev alice : Text
alice = pad_start 56 b'A' (codes "A")

abbrev as_account : Text → Text
as_account s = b'G' ∷ pad_start 55 b'A' s

abbrev toy_sdk : MuxedSdk
toy_sdk = record {
  Account = Text;
  from_address = λ s. some s;
  account_id = λ s. some (as_account (codes "ALICE"));
}

abbrev alice_account : Text
alice_account = as_account (codes "ALICE")

abbrev bob_account : Text
bob_account = as_account (codes "BOB")

abbrev muxed_alice : Text
muxed_alice = b'M' ∷ pad_start 68 b'A' (codes "7")

abbrev mixed_operations : List Operation
mixed_operations =
    record { type_of = payment; source = none }
    ∷ record { type_of = account_merge; source = some muxed_alice }
    ∷ record { type_of = payment; source = some bob_account }
    ∷ record { type_of = other (codes "invokeHostFunction"); source = none }
    ∷ []

abbrev mixed_requirements : List SignatureRequirement
mixed_requirements =
    record { address = alice_account; threshold_level = OperationThreshold.high }
    ∷ record { address = bob_account; threshold_level = OperationThreshold.medium }
    ∷ []

runs : Unit {0}
unfolding envelope_signing_requirements remove_conflicting_requirements operation_requirements
    source_to_address get_required_operation_threshold set_source_signer threshold_of
    muxed_address_to_base_account is_muxed_address is_ed25519_public_key text_eq
runs = tt

mixed_run :
    envelope_signing_requirements toy_sdk (transaction alice_account mixed_operations)
    ≡ ok mixed_requirements
unfolding runs
mixed_run = refl

abbrev raw_requirements : List SignatureRequirementRaw
raw_requirements =
    record { signer = source_account; threshold_level = OperationThreshold.high }
    ∷ record { signer = address bob_account; threshold_level = OperationThreshold.low }
    ∷ []

abbrev source_requirement : SignatureRequirement
source_requirement = record { address = alice_account; threshold_level = OperationThreshold.medium }

remove_conflicting_requirements-exact_example :
    Distinct (remove_conflicting_requirements raw_requirements source_requirement)
    × ((a : Text)
        → level_in a (remove_conflicting_requirements raw_requirements source_requirement)
          ≡ max
              (level_if (text_eq alice_account a) OperationThreshold.medium)
              (demanded alice_account a raw_requirements))
remove_conflicting_requirements-exact_example =
    remove_conflicting_requirements-exact raw_requirements source_requirement

envelope_signing_requirements-Covers_example :
    (a : Text) × (source_to_address toy_sdk alice_account ≡ ok a)
    × Distinct mixed_requirements
    × (level OperationThreshold.medium ≤ level_in a mixed_requirements)
    × All (Covers toy_sdk a mixed_requirements) mixed_operations
envelope_signing_requirements-Covers_example =
    envelope_signing_requirements-Covers toy_sdk alice_account mixed_operations mixed_requirements
      mixed_run

envelope_signing_requirements-succeeds_iff_example :
    ((rs : List SignatureRequirement) × (envelope_signing_requirements toy_sdk
          (transaction alice_account mixed_operations)
        ≡ ok rs))
    ↔ (((a : Text) × (source_to_address toy_sdk alice_account ≡ ok a))
        × All (Resolves toy_sdk) mixed_operations)
envelope_signing_requirements-succeeds_iff_example =
    envelope_signing_requirements-succeeds_iff toy_sdk alice_account mixed_operations

abbrev lock_master_key : SetOptions
lock_master_key = record {
  master_weight = some 0;
  signer = false;
  low_threshold = none;
  med_threshold = none;
  high_threshold = none;
}

zero_is_medium :
    get_required_operation_threshold toy_sdk
      (record { type_of = set_options lock_master_key; source = none })
    ≡ ok (some (record { signer = source_account; threshold_level = OperationThreshold.medium }))
zero_is_medium =
    set_options_zero-medium toy_sdk lock_master_key refl (inr refl) (inl refl) (inl refl) (inl refl)
