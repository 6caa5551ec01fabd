-- ===== src/Pipelines/Classic.antt =====
-- core/pipelines/classic-transaction and core/pipelines/shared/connectors: build, requirements, signing,
-- sending. A plugin may replace the transaction before it is sent.
pub mod Signed
use colibri.Common.{ℕ, Option, none, some, List, Text, Result, ok, err}
use colibri.Address.{MuxedSdk}
use colibri.Signing.Envelope.{EnvelopeError, SignatureRequirement, envelope_signing_requirements}
use colibri.Processes.Send.{
  Sendable, SendOptions, default_options, SendStatus, GetStatus, SendError, SendOutput, Rpc,
  send_transaction,
}
use colibri.Processes.Sdk.{Account, Sdk}
use colibri.Processes.Build.{BuildInput, BuildError, build_transaction}
use colibri.Processes.SignEnvelope.{EnvelopeSigner, SignEnvelopeError, sign_envelope}
use colibri.Pipelines.{and_then, as_error}

-- `TransactionConfig`.
pub record TransactionConfig (W Tx : Type 0) : Type 0 where
  pub fee : Text
  pub source : Text
  pub timeout : ℕ
  pub signers : List (EnvelopeSigner W Tx)

pub record ClassicTransactionInput (W Tx Op : Type 0) : Type 0 where
  pub operations : List Op
  pub config : TransactionConfig W Tx

-- The RPC server of the pipeline, with the clock and the wait of the platform; `none` is a throw.
pub record Server (W Tx : Type 0) : Type 0 where
  pub get_account : Text → W → W × Option Account
  pub send : Tx → W → W × Option (SendStatus × Text)
  pub get_transaction : Text → W → W × Option GetStatus
  pub clock : W → ℕ
  pub wait : ℕ → W → W

-- The error of a step, where `Plugin` are those of a plugin.
pub data PipelineError (Plugin : Type 0) : Type 0 where
  building : BuildError → PipelineError Plugin
  requiring : EnvelopeError → PipelineError Plugin
  signing : SignEnvelopeError → PipelineError Plugin
  in_plugin : Plugin → PipelineError Plugin
  sending : SendError → PipelineError Plugin

-- `createInputToBuild`
unfoldable pub input_to_build :
    {W Tx Op Memo Data : Type 0}
    → Server W Tx
    → Text
    → ClassicTransactionInput W Tx Op
    → BuildInput W Op Memo Data
input_to_build server network_passphrase i = record {
  operations = i.operations;
  source = i.config.source;
  base_fee = i.config.fee;
  network_passphrase = network_passphrase;
  soroban_data = none;
  memo = none;
  preconditions = none;
  rpc = some server.get_account;
  sequence = none;
}

-- What the sending of one transaction uses of the server.
abbrev pub rpc_for : {W Tx : Type 0} → Server W Tx → Tx → Rpc W
rpc_for server tx = record {
  send_transaction = λ _. server.send tx;
  get_transaction = server.get_transaction;
  clock = server.clock;
  wait = server.wait;
}

module _ {W Tx Op Memo Data Builder Plugin : Type 0} (muxed : MuxedSdk)
    (sdk : Sdk Tx Op Memo Data Builder) (server : Server W Tx) (network_passphrase : Text) where
  -- The steps up to the signed envelope.
  unfoldable pub prepare :
      ClassicTransactionInput W Tx Op → W → W × Result (PipelineError Plugin) Tx
  prepare i w =
      and_then
        (as_error building (build_transaction sdk (input_to_build server network_passphrase i) w))
        (λ tx w1.
          and_then (as_error requiring (w1, envelope_signing_requirements muxed (sdk.envelope tx)))
            (λ requirements w2. as_error signing (
              sign_envelope sdk
                (record {
                  transaction = tx;
                  signature_requirements = requirements;
                  signers = i.config.signers;
                })
                w2)))

  -- The last step, with fuel for its polling.
  unfoldable pub deliver_signed : ℕ → Tx → W → W × Result (PipelineError Plugin) SendOutput
  deliver_signed fuel tx w =
      as_error sending
        (send_transaction (rpc_for server tx) default_options fuel (sdk.sendable tx) w)

  -- The pipeline, with what the plugins on the input of the last step make of it.
  unfoldable pub run :
      (Tx → W → W × Result Plugin Tx)
      → ℕ
      → ClassicTransactionInput W Tx Op
      → W
      → W × Result (PipelineError Plugin) SendOutput
  run on_send_input fuel i w =
      and_then (prepare i w)
        λ tx w1. and_then (as_error in_plugin (on_send_input tx w1)) (deliver_signed fuel)
