-- ===== src/Signing/Envelope/Coverage.antt =====
-- What `envelopeSigningRequirements` promises to the step that signs the envelope.
use colibri.Common.{
  ◌≤◌, max, ◌≡◌, ◌⊎◌, inl, inr, Option, none, some, List, [], ◌∷◌, Text, text_eq, text_eq_refl, ok,
  Result-cases, All, arith, Option-cases,
}
use colibri.Address.{MuxedSdk}
use colibri.Signing.Threshold.{
  OperationThreshold, level, Operation, Signer, SignatureRequirementRaw, threshold_of,
  set_source_signer, get_required_operation_threshold,
}
use colibri.Signing.Envelope.{
  SignatureRequirement, transaction, public_key_of, source_to_address, operation_requirements,
  remove_conflicting_requirements, envelope_signing_requirements, push_some,
}
use colibri.Signing.Envelope.Merge.{
  level_in, demanded, level_if, Distinct, remove_conflicting_requirements-exact,
}

-- If the code knows a threshold for the operation, its source is a signer of the list, at that
-- level or above.
abbrev pub Covers : MuxedSdk → Text → List SignatureRequirement → Operation → Type 0
Covers sdk source rs op =
    (threshold_of op.type_of ≡ none)
    ⊎ ((t : OperationThreshold) × (signer : Signer) × (threshold_of op.type_of ≡ some t)
        × (set_source_signer sdk op.source ≡ ok signer)
        × (level t ≤ level_in (public_key_of source signer) rs))

-- The demand of one operation, read off the function that computes it.
abbrev pub Demands : MuxedSdk → Operation → Option SignatureRequirementRaw → Type 0
Demands sdk op r =
    ((threshold_of op.type_of ≡ none) × (r ≡ none))
    ⊎ ((t : OperationThreshold) × (signer : Signer) × (threshold_of op.type_of ≡ some t)
        × (set_source_signer sdk op.source ≡ ok signer)
        × (r ≡ some (record { signer = signer; threshold_level = t })))

pub required-Demands :
    (sdk : MuxedSdk) (op : Operation) (r : Option SignatureRequirementRaw)
    → get_required_operation_threshold sdk op ≡ ok r
    → Demands sdk op r
unfolding get_required_operation_threshold
required-Demands sdk op r h = elim (Option-cases (threshold_of op.type_of)) [
  | inl unknown ↦ inl (unknown, ground arith)
  | inr (t, known) ↦ elim (Result-cases (set_source_signer sdk op.source)) [
    | inl (signer, found) ↦ inr (t, signer, known, found, ground arith)
    | inr (e, failed) ↦ ground arith
  ]
]

-- What is demanded of an account is a bound from below for each requirement of the list.
demanded-head :
    (source : Text) (r : SignatureRequirementRaw) (raw : List SignatureRequirementRaw)
    → level r.threshold_level ≤ demanded source (public_key_of source r.signer) (r ∷ raw)
unfolding demanded
demanded-head source r raw = rw (text_eq_refl (public_key_of source r.signer)) (omega arith)

demanded-push :
    (source a : Text) (r : Option SignatureRequirementRaw) (raw : List SignatureRequirementRaw)
    → demanded source a raw ≤ demanded source a (push_some r raw)
unfolding demanded
demanded-push source a none raw = omega arith
demanded-push source a (some r) raw = omega arith

pub operation_requirements-inv :
    (sdk : MuxedSdk) (op : Operation) (ops : List Operation) (raw : List SignatureRequirementRaw)
    → operation_requirements sdk (op ∷ ops) ≡ ok raw
    → (r : Option SignatureRequirementRaw) × (rest : List SignatureRequirementRaw)
      × (get_required_operation_threshold sdk op ≡ ok r)
      × (operation_requirements sdk ops ≡ ok rest)
      × (raw ≡ push_some r rest)
unfolding operation_requirements
operation_requirements-inv sdk op ops raw h =
    elim (Result-cases (get_required_operation_threshold sdk op)) [
      | inr (e, failed) ↦ ground arith
      | inl (r, first) ↦ elim (Result-cases (operation_requirements sdk ops)) [
        | inr (e, failed) ↦ ground arith
        | inl (rest, others) ↦ (r, rest, first, others, ground arith)
      ]
    ]

-- A list that asks at least what an operation demands covers that operation.
Demands-Covers :
    (sdk : MuxedSdk) (source : Text) (rs : List SignatureRequirement) (op : Operation)
    (r : Option SignatureRequirementRaw) (raw : List SignatureRequirementRaw)
    → Demands sdk op r
    → ((a : Text) → demanded source a (push_some r raw) ≤ level_in a rs)
    → Covers sdk source rs op
Demands-Covers sdk source rs op r raw (inl (unknown, _)) within = inl unknown
Demands-Covers sdk source rs op r raw (inr (t, signer, known, found, e)) within =
    let requirement : SignatureRequirementRaw = record { signer = signer; threshold_level = t } in
    let bound : level t ≤ demanded source (public_key_of source signer) (push_some r raw) =
      rw e (demanded-head source requirement raw) in
    inr (t, signer, known, found, omega (arith, bound, within (public_key_of source signer)))

-- The demands of a list of operations are all within those of the requirements computed for it.
operations-Covers :
    (sdk : MuxedSdk) (source : Text) (rs : List SignatureRequirement) (ops : List Operation)
    (raw : List SignatureRequirementRaw)
    → operation_requirements sdk ops ≡ ok raw
    → ((a : Text) → demanded source a raw ≤ level_in a rs)
    → All (Covers sdk source rs) ops
operations-Covers sdk source rs [] raw h within = tt
operations-Covers sdk source rs (op ∷ ops) raw h within =
    let (r, rest, first, others, e) = operation_requirements-inv sdk op ops raw h in
    let within' : (a : Text) → demanded source a (push_some r rest) ≤ level_in a rs =
      rw e at within in
    (
      Demands-Covers sdk source rs op r rest (required-Demands sdk op r first) within',
      operations-Covers sdk source rs ops rest others
          (λ a. omega (arith, demanded-push source a r rest, within' a)),
    )

-- Where the code succeeds on a transaction, the list that it returns names no account twice, asks at
-- least the medium level of the source's account, and covers every operation whose threshold the
-- code knows.
pub envelope_signing_requirements-Covers :
    (sdk : MuxedSdk) (source : Text) (ops : List Operation) (rs : List SignatureRequirement)
    → envelope_signing_requirements sdk (transaction source ops) ≡ ok rs
    → (a : Text) × (source_to_address sdk source ≡ ok a)
      × Distinct rs
      × (level OperationThreshold.medium ≤ level_in a rs)
      × All (Covers sdk a rs) ops
unfolding envelope_signing_requirements
envelope_signing_requirements-Covers sdk source ops rs h =
    elim (Result-cases (source_to_address sdk source)) [
      | inr (e, failed) ↦ ground arith
      | inl (a, resolved) ↦ elim (Result-cases (operation_requirements sdk ops)) [
        | inr (e, failed) ↦ ground arith
        | inl (raw, computed) ↦
            let e : rs ≡ merged raw a = ground arith in
            (
              a,
              resolved,
              rw e (exact raw a).0,
              rw e (medium_level raw a),
              operations-Covers sdk a rs ops raw computed (rw e (covered raw a)),
            )
      ]
    ]
  where
    from : Text → SignatureRequirement
    from a = record { address = a; threshold_level = OperationThreshold.medium }

    merged : List SignatureRequirementRaw → Text → List SignatureRequirement
    merged raw a = remove_conflicting_requirements raw (from a)

    exact :
        (raw : List SignatureRequirementRaw) (a : Text)
        → Distinct (merged raw a)
          × ((b : Text)
              → level_in b (merged raw a)
                ≡ max (level_if (text_eq a b) OperationThreshold.medium) (demanded a b raw))
    exact raw a = remove_conflicting_requirements-exact raw (from a)

    medium_level : (raw : List SignatureRequirementRaw) (a : Text) → 2 ≤ level_in a (merged raw a)
    medium_level raw a = rw ((exact raw a).1 a, text_eq_refl a) (omega arith)

    covered :
        (raw : List SignatureRequirementRaw) (a b : Text)
        → demanded a b raw ≤ level_in b (merged raw a)
    covered raw a b = rw ((exact raw a).1 b) (omega arith)
