-- ===== src/Processes/SignEnvelope.antt =====
-- core/processes/sign-envelope/index.ts: each requirement in turn is signed by the first signer that
-- signs for its address.
pub mod Outcome
use colibri.Common.{
  Bool, true, false, Option, none, some, List, [], ◌∷◌, Text, Result, ok, err, if◌then◌else◌,
}
use colibri.Signing.Envelope.{SignatureRequirement}
use colibri.Processes.Sdk.{Sdk, attempt}

-- What the process uses of a signer; a signature is made on a world, and `none` is a throw.
pub record EnvelopeSigner (W Tx : Type 0) : Type 0 where
  pub signs_for : Text → Bool
  pub sign_transaction : Tx → W → W × Option Text

pub data SignEnvelopeError : Type 0 where
  no_requirements no_signers : SignEnvelopeError
  signer_not_found failed_to_sign_transaction : Text → SignEnvelopeError

pub record SignEnvelopeInput (W Tx : Type 0) : Type 0 where
  pub transaction : Tx
  pub signature_requirements : List SignatureRequirement
  pub signers : List (EnvelopeSigner W Tx)

-- `signers.find((s) => s.signsFor(address))`
unfoldable pub find_signer :
    {W Tx : Type 0} → Text → List (EnvelopeSigner W Tx) → Option (EnvelopeSigner W Tx)
find_signer address [] = none
find_signer address (s ∷ signers) =
    let rest = find_signer address signers in if s.signs_for address then some s else rest

module _ {Tx Op Memo Data Builder : Type 0} (sdk : Sdk Tx Op Memo Data Builder) where
  -- `TransactionBuilder.fromXDR(xdr, passphrase)`, in the `try` with the signature.
  unfoldable pub read_signed : Text → Text → Option Text → Result SignEnvelopeError Tx
  read_signed passphrase address none = err (failed_to_sign_transaction address)
  read_signed passphrase address (some xdr) =
      attempt (failed_to_sign_transaction address) (sdk.from_xdr xdr passphrase)

  module _ {W : Type 0} where
    -- One round of the loop.
    unfoldable pub sign_as :
        Text → Text → Option (EnvelopeSigner W Tx) → Tx → W → W × Result SignEnvelopeError Tx
    sign_as passphrase address none tx w = (w, err (signer_not_found address))
    sign_as passphrase address (some s) tx w =
        let (w', xdr) = s.sign_transaction tx w in (w', read_signed passphrase address xdr)

    abbrev pub continue_with :
        (Tx → W → W × Result SignEnvelopeError Tx)
        → W × Result SignEnvelopeError Tx
        → W × Result SignEnvelopeError Tx
    continue_with next (w, ok tx) = next tx w
    continue_with next (w, err e) = (w, err e)

    unfoldable pub sign_each :
        Text
        → List (EnvelopeSigner W Tx)
        → List SignatureRequirement
        → Tx
        → W
        → W × Result SignEnvelopeError Tx
    sign_each passphrase signers [] tx w = (w, ok tx)
    sign_each passphrase signers (r ∷ requirements) tx w =
        continue_with (sign_each passphrase signers requirements)
          (sign_as passphrase r.address (find_signer r.address signers) tx w)

    unfoldable pub sign_guarded :
        Tx
        → List SignatureRequirement
        → List (EnvelopeSigner W Tx)
        → W
        → W × Result SignEnvelopeError Tx
    sign_guarded tx [] signers w = (w, err no_requirements)
    sign_guarded tx (r ∷ requirements) [] w = (w, err no_signers)
    sign_guarded tx (r ∷ requirements) (s ∷ signers) w =
        sign_each (sdk.network_passphrase tx) (s ∷ signers) (r ∷ requirements) tx w

    unfoldable pub sign_envelope : SignEnvelopeInput W Tx → W → W × Result SignEnvelopeError Tx
    sign_envelope i w = sign_guarded i.transaction i.signature_requirements i.signers w
