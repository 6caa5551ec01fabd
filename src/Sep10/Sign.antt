-- ===== src/Sep10/Sign.antt =====
-- sep10/src/challenge/challenge.ts, the signing: `sign` and `addSignature`, which push on the signatures
-- of the transaction and return the challenge, and `toXDR`.
pub mod Keeps
use colibri.Common.{Option, none, some, [], ◌∷◌, ◌++◌, List, Text, Result, ok, err, ◌>>=◌}
use colibri.Sep10.Transaction.{Bytes, DecoratedSignature, Transaction, Sdk}
use colibri.Sep10.Challenge.{ChallengeError, Challenge, external}

-- What `isSigner` tells apart: a signer of core, whose `sign` may throw, or a keypair of the SDK.
pub data AnySigner (sdk : Sdk) : Type 0 where
  signer : Text → (Bytes → Option Bytes) → AnySigner sdk
  keypair : sdk.Keypair → AnySigner sdk

abbrev pub add_signature : Challenge → DecoratedSignature → Challenge
add_signature c s = record c {
  transaction = record (c.transaction) { signatures = c.transaction.signatures ++ s ∷ [] };
}

module _ (sdk : Sdk) where
  unfoldable pub decorate : Bytes → AnySigner sdk → Result ChallengeError DecoratedSignature
  decorate hash (keypair k) = ok (sdk.sign_decorated k hash)
  decorate hash (signer public_key sign) = elim (sign hash) [
    | none ↦ err external
    | some s ↦ elim (sdk.from_public_key public_key) [
      | none ↦ err external
      | some key ↦ ok (record { hint = sdk.signature_hint key; signature = s })
    ]
  ]

  unfoldable pub sign : Challenge → AnySigner sdk → Result ChallengeError Challenge
  sign c s = decorate (sdk.hash c.transaction) s >>= λ signature. ok (add_signature c signature)

  -- `for (const s of signers) challenge.sign(s);`
  unfoldable pub sign_all : Challenge → List (AnySigner sdk) → Result ChallengeError Challenge
  sign_all c [] = ok c
  sign_all c (s ∷ signers) = sign c s >>= λ signed. sign_all signed signers

  abbrev pub to_xdr : Challenge → Text
  to_xdr c = sdk.to_xdr c.transaction
