-- ===== src/Pipelines/Classic/Signed.antt =====
-- What the classic-transaction pipeline of core/pipelines/classic-transaction sends.
use colibri.Common.{ℕ, ◌≡◌, refl, ◌⊎◌, List, ◌∷◌, map, Text, Result, ok, err}
use colibri.Address.{MuxedSdk}
use colibri.Signing.Envelope.{SignatureRequirement, envelope_signing_requirements}
use colibri.Processes.Send.{SendOutput}
use colibri.Processes.Sdk.{set_timeout, add_operation, Sdk}
use colibri.Processes.Build.{build_transaction, no_limit}
use colibri.Processes.Build.Calls.{builder_calls}
use colibri.Processes.SignEnvelope.Outcome.{IsSame, AllSigned}
use colibri.Pipelines.Classic.{
  ClassicTransactionInput, Server, PipelineError, building, requiring, signing, sending,
  input_to_build, deliver_signed,
}

-- The builder of the pipeline gets the operations and no time limit, whatever the timeout of the
-- configuration.
pub input_to_build-ignores_timeout :
    {W Tx Op Memo Data : Type 0} (server : Server W Tx) (network_passphrase : Text)
    (i : ClassicTransactionInput W Tx Op)
    → builder_calls {Memo = Memo} {Data = Data} (input_to_build server network_passphrase i)
      ≡ set_timeout no_limit ∷ map add_operation i.operations
unfolding input_to_build
input_to_build-ignores_timeout server network_passphrase i = refl

-- An error of a step before the sending.
abbrev pub IsBefore : {Plugin : Type 0} → PipelineError Plugin → Type 0
IsBefore (sending e) = ⊥
IsBefore _ = Unit

module _ {W Tx Op Memo Data Builder : Type 0} (muxed : MuxedSdk) (sdk : Sdk Tx Op Memo Data Builder)
    (server : Server W Tx) (network_passphrase : Text) (Signed : Tx → Text → Type 0)
    (unsigned : Tx → Tx) where
  -- A transaction that is the one built but for signatures, signed for each of its requirements.
  abbrev pub IsReady : ClassicTransactionInput W Tx Op → W → Tx → Type 0
  IsReady i w tx =
      (built : Tx) × (requirements : List SignatureRequirement) × ((build_transaction sdk
          (input_to_build server network_passphrase i) w).1
        ≡ ok built)
      × (envelope_signing_requirements muxed (sdk.envelope built) ≡ ok requirements)
      × AllSigned Signed tx requirements
      × IsSame sdk unsigned tx built

module _ (Plugin : Type 0) {W Tx Op Memo Data Builder : Type 0} (muxed : MuxedSdk)
    (sdk : Sdk Tx Op Memo Data Builder) (server : Server W Tx) (network_passphrase : Text)
    (Signed : Tx → Text → Type 0) (unsigned : Tx → Tx) where
  abbrev Ready : ClassicTransactionInput W Tx Op → W → Tx → Type 0
  Ready = IsReady muxed sdk server network_passphrase Signed unsigned

  -- The result of the steps before the sending.
  abbrev Prepared : ClassicTransactionInput W Tx Op → W → Result (PipelineError Plugin) Tx → Type 0
  Prepared i w (ok tx) = Ready i w tx
  Prepared i w (err (building e)) = Unit
  Prepared i w (err (requiring e)) = Unit
  Prepared i w (err (signing e)) = Unit
  Prepared i w (err _) = ⊥

  -- The run ends in an error before anything is sent, or it is the sending of what the plugins give for
  -- a transaction that is ready.
  abbrev pub SendsReady :
      (Tx → W → W × Result Plugin Tx)
      → ℕ
      → ClassicTransactionInput W Tx Op
      → W
      → W × Result (PipelineError Plugin) SendOutput
      → Type 0
  SendsReady on_send_input fuel i w result =
      ((w' : W) × (e : PipelineError Plugin) × (result ≡ (w', err e)) × IsBefore e)
      ⊎ ((tx : Tx) × (w1 : W) × (sent : Tx) × (w2 : W) × Ready i w tx
          × (on_send_input tx w1 ≡ (w2, ok sent))
          × (result ≡ deliver_signed muxed sdk server network_passphrase fuel sent w2))
