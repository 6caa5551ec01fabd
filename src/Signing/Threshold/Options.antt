-- ===== src/Signing/Threshold/Options.antt =====
-- The level that a SetOptions operation asks for in
-- core/auth/requirements/classic-operation-threshold/index.ts.
use colibri.Common.{ℕ, ◌≡◌, ◌⊎◌, false, Option, none, some, ok, arith}
use colibri.Address.{MuxedSdk}
use colibri.Signing.Threshold.{
  OperationThreshold, SetOptions, set_options, source_account, set_source_signer, threshold_of,
  get_required_operation_threshold,
}

abbrev pub AbsentOrZero : Option ℕ → Type 0
AbsentOrZero field = (field ≡ none) ⊎ (field ≡ some 0)

-- A SetOptions operation without a source that sets the master weight to 0, or a threshold to 0, and
-- adds no signer, is given the medium level: the code reads a field of value 0 as a missing one.
pub set_options_zero-medium :
    (sdk : MuxedSdk) (o : SetOptions)
    → o.signer ≡ false
    → AbsentOrZero o.master_weight
    → AbsentOrZero o.low_threshold
    → AbsentOrZero o.med_threshold
    → AbsentOrZero o.high_threshold
    → get_required_operation_threshold sdk (record { type_of = set_options o; source = none })
      ≡ ok (some (record { signer = source_account; threshold_level = OperationThreshold.medium }))
unfolding get_required_operation_threshold set_source_signer threshold_of
set_options_zero-medium sdk o h1 h2 h3 h4 h5 = ground arith
