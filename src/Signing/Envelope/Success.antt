-- ===== src/Signing/Envelope/Success.antt =====
-- When `envelopeSigningRequirements` succeeds on a transaction.
use colibri.Common.{
  ◌≡◌, refl, ◌↔◌, ◌⊎◌, inl, inr, none, some, Option, List, [], ◌∷◌, Text, ok, Result-cases, All,
  arith, Option-cases,
}
use colibri.Address.{MuxedSdk}
use colibri.Signing.Threshold.{
  OperationThreshold, Operation, Signer, SignatureRequirementRaw, threshold_of, set_source_signer,
  get_required_operation_threshold,
}
use colibri.Signing.Envelope.{
  SignatureRequirement, transaction, source_to_address, operation_requirements,
  remove_conflicting_requirements, envelope_signing_requirements, push_some,
}
use colibri.Signing.Envelope.Coverage.{required-Demands, operation_requirements-inv}

-- The code knows no threshold for the operation, or its source can be read as a signer.
abbrev pub Resolves : MuxedSdk → Operation → Type 0
Resolves sdk op =
    (threshold_of op.type_of ≡ none)
    ⊎ ((signer : Signer) × (set_source_signer sdk op.source ≡ ok signer))

required-of_Resolves :
    (sdk : MuxedSdk) (op : Operation)
    → Resolves sdk op
    → (r : Option SignatureRequirementRaw) × (get_required_operation_threshold sdk op ≡ ok r)
unfolding get_required_operation_threshold
required-of_Resolves sdk op h = elim (Option-cases (threshold_of op.type_of)) [
  | inl unknown ↦ (none, ground arith)
  | inr (t, known) ↦ elim h [
    | inl unknown ↦ ground arith
    | inr (signer, found) ↦ (some (record { signer = signer; threshold_level = t }), ground arith)
  ]
]

operations-Resolves :
    (sdk : MuxedSdk) (ops : List Operation) (raw : List SignatureRequirementRaw)
    → operation_requirements sdk ops ≡ ok raw
    → All (Resolves sdk) ops
operations-Resolves sdk [] raw h = tt
operations-Resolves sdk (op ∷ ops) raw h =
    let (r, rest, first, others, e) = operation_requirements-inv sdk op ops raw h in
    (ground (arith, required-Demands sdk op r first), operations-Resolves sdk ops rest others)

operations-total :
    (sdk : MuxedSdk) (ops : List Operation)
    → All (Resolves sdk) ops
    → (raw : List SignatureRequirementRaw) × (operation_requirements sdk ops ≡ ok raw)
unfolding operation_requirements
operations-total sdk [] h = ([], refl)
operations-total sdk (op ∷ ops) h =
    let (r, first) = required-of_Resolves sdk op h.0 in
    let (rest, others) = operations-total sdk ops h.1 in (push_some r rest, rw (first, others))

-- The code returns a list for a transaction exactly when the source of the transaction can be read
-- as an account and so can the source of every operation whose threshold the code knows.
pub envelope_signing_requirements-succeeds_iff :
    (sdk : MuxedSdk) (source : Text) (ops : List Operation)
    → ((rs : List SignatureRequirement) × (envelope_signing_requirements sdk
            (transaction source ops)
          ≡ ok rs))
      ↔ (((a : Text) × (source_to_address sdk source ≡ ok a)) × All (Resolves sdk) ops)
unfolding envelope_signing_requirements
envelope_signing_requirements-succeeds_iff sdk source ops = (forth, back)
  where
    forth :
        ((rs : List SignatureRequirement) × (envelope_signing_requirements sdk
              (transaction source ops)
            ≡ ok rs))
        → (((a : Text) × (source_to_address sdk source ≡ ok a)) × All (Resolves sdk) ops)
    forth (rs, h) = elim (Result-cases (source_to_address sdk source)) [
      | inr (e, failed) ↦ ground arith
      | inl (a, resolved) ↦ elim (Result-cases (operation_requirements sdk ops)) [
        | inr (e, failed) ↦ ground arith
        | inl (raw, computed) ↦ ((a, resolved), operations-Resolves sdk ops raw computed)
      ]
    ]

    back :
        (((a : Text) × (source_to_address sdk source ≡ ok a)) × All (Resolves sdk) ops)
        → (rs : List SignatureRequirement) × (envelope_signing_requirements sdk
              (transaction source ops)
            ≡ ok rs)
    back ((a, resolved), all) =
        let (raw, computed) = operations-total sdk ops all in
        (
          remove_conflicting_requirements raw
              (record { address = a; threshold_level = OperationThreshold.medium }),
          rw (resolved, computed),
        )
