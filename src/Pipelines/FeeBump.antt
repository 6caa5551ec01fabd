-- ===== src/Pipelines/FeeBump.antt =====
-- plugins/fee-bump/src: the plugin on the input of the sending (index.ts) and the pipeline in it
-- (pipeline/pipeline.ts, pipeline/connectors.ts).
pub mod Bumped
use colibri.Common.{List, Text, Result, ok, err}
use colibri.Address.{MuxedSdk}
use colibri.Signing.Envelope.{
  Envelope, fee_bump, transaction, neither, EnvelopeError, envelope_signing_requirements,
}
use colibri.Processes.Sdk.{Sdk}
use colibri.Processes.SignEnvelope.{EnvelopeSigner, SignEnvelopeError, sign_envelope}
use colibri.Processes.WrapFeeBump.{WrapFeeBumpError, FeeBumpConfig, wrap_fee_bump}
use colibri.Pipelines.{and_then, as_error}

pub record FeeBumpPluginConfig (W Tx : Type 0) : Type 0 where
  pub wrapper : FeeBumpConfig
  pub signers : List (EnvelopeSigner W Tx)

-- `NOT_A_TRANSACTION` of the plugin, or the error of a step of its pipeline.
pub data FeeBumpPluginError : Type 0 where
  not_a_transaction : FeeBumpPluginError
  wrapping : WrapFeeBumpError → FeeBumpPluginError
  requiring : EnvelopeError → FeeBumpPluginError
  signing : SignEnvelopeError → FeeBumpPluginError

-- `assert(isTransaction(transaction), …)`
unfoldable pub check_transaction : Envelope → Result FeeBumpPluginError (Unit {0})
check_transaction (fee_bump source) = err not_a_transaction
check_transaction (transaction source operations) = ok tt
check_transaction neither = err not_a_transaction

module _ {W Tx Op Memo Data Builder : Type 0} (muxed : MuxedSdk) (sdk : Sdk Tx Op Memo Data Builder)
    (network_passphrase : Text) (config : FeeBumpPluginConfig W Tx) where
  -- The pipeline of the plugin: wrap, requirements of the wrapper, signing with the plugin's signers.
  unfoldable pub fee_bump_pipeline : Tx → W → W × Result FeeBumpPluginError Tx
  fee_bump_pipeline tx w =
      and_then (as_error wrapping (w, wrap_fee_bump sdk tx config.wrapper network_passphrase))
        (λ bumped w1.
          and_then
            (as_error requiring (w1, envelope_signing_requirements muxed (sdk.envelope bumped)))
            (λ requirements w2. as_error signing (
              sign_envelope sdk
                (record {
                  transaction = bumped;
                  signature_requirements = requirements;
                  signers = config.signers;
                })
                w2)))

  -- The transaction of the input that the plugin returns.
  unfoldable pub on_send_input : Tx → W → W × Result FeeBumpPluginError Tx
  on_send_input tx w =
      and_then (w, check_transaction (sdk.envelope tx)) (λ _ w1. fee_bump_pipeline tx w1)
