-- ===== src/Pipelines/FeeBump/Bumped.antt =====
-- What the plugin of plugins/fee-bump/src gives for a transaction.
use colibri.Common.{
  ◌≡◌, refl, sym, true, some, List, [], ◌∷◌, Text, Result, ok, err, All, ok-injective, Result-cases,
  subst, inl, inr,
}
use colibri.Address.{MuxedSdk}
use colibri.Signing.Envelope.{
  Envelope, fee_bump, transaction, neither, EnvelopeError, SignatureRequirement, source_to_address,
  envelope_signing_requirements,
}
use colibri.Signing.Threshold.{OperationThreshold}
use colibri.Processes.Sdk.{Sdk}
use colibri.Processes.SignEnvelope.{SignEnvelopeError, sign_envelope}
use colibri.Processes.SignEnvelope.Outcome.{
  IsSame, SignsAsItSays, SignOutcome, sign_envelope-SignOutcome,
}
use colibri.Processes.WrapFeeBump.{
  WrapFeeBumpError, IsInner, parsed_greater, wrap_fee_bump, wrap_fee_bump-succeeds_iff,
}
use colibri.Pipelines.{and_then, as_error}
use colibri.Pipelines.FeeBump.{
  FeeBumpPluginConfig, FeeBumpPluginError, not_a_transaction, check_transaction, fee_bump_pipeline,
  on_send_input,
}

-- The SDK builds a fee-bump envelope of the source that it is given.
abbrev pub BuildsFeeBump : {Tx Op Memo Data Builder : Type 0} → Sdk Tx Op Memo Data Builder → Type 0
BuildsFeeBump {Tx} sdk =
    (source fee passphrase : Text) (tx t : Tx)
    → sdk.build_fee_bump_transaction source fee tx passphrase ≡ some t
    → sdk.envelope t ≡ fee_bump source

module _ {W Tx Op Memo Data Builder : Type 0} (muxed : MuxedSdk) (sdk : Sdk Tx Op Memo Data Builder)
    (network_passphrase : Text) (config : FeeBumpPluginConfig W Tx) (Signed : Tx → Text → Type 0)
    (unsigned : Tx → Tx) where
  -- What the SDK builds as a fee bump of the transaction, from the plugin's source and for the plugin's
  -- fee, which is higher, signed for the account of that source and otherwise the same.
  abbrev pub IsBumped : Tx → Tx → Type 0
  IsBumped tx t =
      (built : Tx) × (account : Text) × IsInner (sdk.envelope tx)
      × (parsed_greater (sdk.parse_int config.wrapper.fee) (sdk.parse_int (sdk.fee tx)) ≡ true)
      × (sdk.build_fee_bump_transaction config.wrapper.source config.wrapper.fee tx
            network_passphrase
          ≡ some built)
      × IsSame sdk unsigned t built
      × (source_to_address muxed config.wrapper.source ≡ ok account)
      × Signed t account

  abbrev pub PluginOutcome : Tx → Result FeeBumpPluginError Tx → Type 0
  PluginOutcome tx (ok t) = IsBumped tx t
  PluginOutcome tx (err not_a_transaction) = IsInner (sdk.envelope tx) → ⊥
  PluginOutcome tx (err _) = IsInner (sdk.envelope tx)

  fee_bump-requires :
      (source : Text) (requirements : List SignatureRequirement)
      → envelope_signing_requirements muxed (fee_bump source) ≡ ok requirements
      → (r : SignatureRequirement) × (source_to_address muxed source ≡ ok r.address)
        × (requirements ≡ r ∷ [])
  unfolding envelope_signing_requirements
  fee_bump-requires source requirements h = elim (Result-cases (source_to_address muxed source)) [
    | inl (a, found) ↦ (
      record { address = a; threshold_level = OperationThreshold.low },
      found,
      sym (ok-injective (rw found at h)),
    )
    | inr (e, lost) ↦ absurd (let broken = rw lost at h in cc)
  ]

  signed-PluginOutcome :
      (tx built : Tx) (r : SignatureRequirement) (x : W × Result SignEnvelopeError Tx)
      → IsInner (sdk.envelope tx)
      → parsed_greater (sdk.parse_int config.wrapper.fee) (sdk.parse_int (sdk.fee tx)) ≡ true
      → sdk.build_fee_bump_transaction config.wrapper.source config.wrapper.fee tx
          network_passphrase
        ≡ some built
      → source_to_address muxed config.wrapper.source ≡ ok r.address
      → SignOutcome sdk Signed unsigned built (r ∷ []) config.signers x.1
      → PluginOutcome tx (as_error FeeBumpPluginError.signing x).1
  signed-PluginOutcome tx built r (w, err e) inner above built_it address outcome = inner
  signed-PluginOutcome tx built r (w, ok t) inner above built_it address (all, same) =
      (built, r.address, inner, above, built_it, same, address, all.0)

  required-PluginOutcome :
      (tx built : Tx) (w : W) (r : Result EnvelopeError (List SignatureRequirement))
      → All (SignsAsItSays sdk Signed unsigned) config.signers
      → BuildsFeeBump sdk
      → wrap_fee_bump sdk tx config.wrapper network_passphrase ≡ ok built
      → envelope_signing_requirements muxed (sdk.envelope built) ≡ r
      → PluginOutcome tx
          (and_then (as_error FeeBumpPluginError.requiring (w, r)) (λ requirements w2.
            as_error FeeBumpPluginError.signing (
              sign_envelope sdk
                (record {
                  transaction = built;
                  signature_requirements = requirements;
                  signers = config.signers;
                })
                w2))).1
  required-PluginOutcome tx built w (err e) says builds wrapped h =
      ((wrap_fee_bump-succeeds_iff sdk tx config.wrapper network_passphrase built).0 wrapped).0
  required-PluginOutcome tx built w (ok requirements) says builds wrapped h =
      let (inner, above, built_it) =
        (wrap_fee_bump-succeeds_iff sdk tx config.wrapper network_passphrase built).0 wrapped in
      let bump =
        builds config.wrapper.source config.wrapper.fee network_passphrase tx built built_it in
      let (r, address, only) =
        fee_bump-requires config.wrapper.source requirements (rw bump at h) in
      signed-PluginOutcome tx built r _ inner above built_it address (
        subst
          (λ (rs : List SignatureRequirement).
            SignOutcome sdk Signed unsigned built rs config.signers
              (sign_envelope sdk
                (record {
                  transaction = built;
                  signature_requirements = requirements;
                  signers = config.signers;
                })
                w).1)
          only
          (sign_envelope-SignOutcome sdk Signed unsigned
            (record {
              transaction = built;
              signature_requirements = requirements;
              signers = config.signers;
            })
            w says))

  wrapped-PluginOutcome :
      (tx : Tx) (w : W) (r : Result WrapFeeBumpError Tx)
      → All (SignsAsItSays sdk Signed unsigned) config.signers
      → BuildsFeeBump sdk
      → IsInner (sdk.envelope tx)
      → wrap_fee_bump sdk tx config.wrapper network_passphrase ≡ r
      → PluginOutcome tx
          (and_then (as_error FeeBumpPluginError.wrapping (w, r)) (λ bumped w1.
            and_then
              (as_error FeeBumpPluginError.requiring
                (w1, envelope_signing_requirements muxed (sdk.envelope bumped)))
              (λ requirements w2. as_error FeeBumpPluginError.signing (
                sign_envelope sdk
                  (record {
                    transaction = bumped;
                    signature_requirements = requirements;
                    signers = config.signers;
                  })
                  w2)))).1
  wrapped-PluginOutcome tx w (err e) says builds inner h = inner
  wrapped-PluginOutcome tx w (ok built) says builds inner h =
      required-PluginOutcome tx built w _ says builds h refl

  checked-PluginOutcome :
      (tx : Tx) (w : W) (e : Envelope)
      → All (SignsAsItSays sdk Signed unsigned) config.signers
      → BuildsFeeBump sdk
      → sdk.envelope tx ≡ e
      → PluginOutcome tx
          (and_then
            (w, check_transaction e)
            (λ _ w1. fee_bump_pipeline muxed sdk network_passphrase config tx w1)).1
  unfolding check_transaction fee_bump_pipeline
  checked-PluginOutcome tx w (fee_bump source) says builds h = λ inner. subst IsInner h inner
  checked-PluginOutcome tx w neither says builds h = λ inner. subst IsInner h inner
  checked-PluginOutcome tx w (transaction source operations) says builds h =
      wrapped-PluginOutcome tx w _ says builds (subst IsInner (sym h) tt) refl

-- Where what the plugin's signers make of a transaction, read with the network passphrase of that
-- transaction, is signed for the addresses that they say and otherwise the same, with the signatures
-- that were there, and the SDK builds a fee bump of the source it is given: what the plugin returns is,
-- without its signatures, the fee bump that the SDK builds of the given transaction from the plugin's
-- source for the plugin's fee, which is parsed to more than the transaction's, and it is signed for the
-- account of that source. NOT_A_TRANSACTION comes only for what is no plain transaction, and the other
-- errors only for one that is.
pub on_send_input-PluginOutcome :
    {W Tx Op Memo Data Builder : Type 0} (muxed : MuxedSdk) (sdk : Sdk Tx Op Memo Data Builder)
    (network_passphrase : Text) (config : FeeBumpPluginConfig W Tx) (Signed : Tx → Text → Type 0)
    (unsigned : Tx → Tx) (tx : Tx) (w : W)
    → All (SignsAsItSays sdk Signed unsigned) config.signers
    → BuildsFeeBump sdk
    → PluginOutcome muxed sdk network_passphrase config Signed unsigned tx
        (on_send_input muxed sdk network_passphrase config tx w).1
unfolding on_send_input
on_send_input-PluginOutcome muxed sdk network_passphrase config Signed unsigned tx w says builds =
    checked-PluginOutcome muxed sdk network_passphrase config Signed unsigned tx w _ says builds
      refl
