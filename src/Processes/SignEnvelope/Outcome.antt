-- ===== src/Processes/SignEnvelope/Outcome.antt =====
-- What core/processes/sign-envelope/index.ts has done to the envelope when it ends, on every branch.
use colibri.Common.{
  ◌≡◌, refl, sym, ◌∙◌, true, false, Option, none, some, some-injective, List, [], ◌∷◌, Text, Result,
  ok, err, All, arith, Bool-cases, Option-cases, ◌⊎◌, inl, inr, subst,
}
use colibri.Signing.Envelope.{SignatureRequirement}
use colibri.Processes.Sdk.{Sdk}
use colibri.Processes.SignEnvelope.{
  EnvelopeSigner, SignEnvelopeError, no_requirements, no_signers, signer_not_found,
  failed_to_sign_transaction, SignEnvelopeInput, find_signer, read_signed, sign_as, continue_with,
  sign_each, sign_guarded, sign_envelope,
}

abbrev pub IsNeeded : Text → List SignatureRequirement → Type 0
IsNeeded a [] = ⊥
IsNeeded a (r ∷ rs) = (r.address ≡ a) ⊎ IsNeeded a rs

abbrev pub AllSigned :
    {Tx : Type 0} → (Tx → Text → Type 0) → Tx → List SignatureRequirement → Type 0
AllSigned Signed tx requirements = All (λ r. Signed tx r.address) requirements

-- One transaction is another but for signatures; `unsigned` is what is left of one without them.
abbrev pub IsSame :
    {Tx Op Memo Data Builder : Type 0} → Sdk Tx Op Memo Data Builder → (Tx → Tx) → Tx → Tx → Type 0
IsSame sdk unsigned tx' tx =
    (unsigned tx' ≡ unsigned tx) × (sdk.network_passphrase tx' ≡ sdk.network_passphrase tx)

module _ {Tx Op Memo Data Builder W : Type 0} (sdk : Sdk Tx Op Memo Data Builder)
    (Signed : Tx → Text → Type 0) (unsigned : Tx → Tx) where
  -- What a signer makes of a transaction, read with the network passphrase of that transaction, is
  -- signed for the addresses that the signer says, has the signatures that were there, and is the same
  -- but for its signatures.
  pub record SignsAsItSays (s : EnvelopeSigner W Tx) : Type 0 where
    pub signs :
        (a xdr : Text) (tx tx' : Tx) (w : W)
        → s.signs_for a ≡ true
        → (s.sign_transaction tx w).1 ≡ some xdr
        → sdk.from_xdr xdr (sdk.network_passphrase tx) ≡ some tx'
        → Signed tx' a
    pub keeps :
        (xdr : Text) (tx tx' : Tx) (w : W) (b : Text)
        → (s.sign_transaction tx w).1 ≡ some xdr
        → sdk.from_xdr xdr (sdk.network_passphrase tx) ≡ some tx'
        → Signed tx b
        → Signed tx' b
    pub same :
        (xdr : Text) (tx tx' : Tx) (w : W)
        → (s.sign_transaction tx w).1 ≡ some xdr
        → sdk.from_xdr xdr (sdk.network_passphrase tx) ≡ some tx'
        → IsSame sdk unsigned tx' tx

  -- What each result tells.
  abbrev pub SignOutcome :
      Tx
      → List SignatureRequirement
      → List (EnvelopeSigner W Tx)
      → Result SignEnvelopeError Tx
      → Type 0
  SignOutcome tx rs signers (ok tx') = AllSigned Signed tx' rs × IsSame sdk unsigned tx' tx
  SignOutcome tx rs signers (err no_requirements) = rs ≡ []
  SignOutcome tx rs signers (err no_signers) = signers ≡ []
  SignOutcome tx rs signers (err (signer_not_found a)) =
      IsNeeded a rs × All (λ s. s.signs_for a ≡ false) signers
  SignOutcome tx rs signers (err (failed_to_sign_transaction a)) = IsNeeded a rs

  found-signs :
      (a : Text) (signers : List (EnvelopeSigner W Tx)) (s : EnvelopeSigner W Tx)
      → All SignsAsItSays signers
      → find_signer a signers ≡ some s
      → SignsAsItSays s × (s.signs_for a ≡ true)
  unfolding find_signer
  found-signs a [] s h e = cc
  found-signs a (t ∷ signers) s h e = elim (Bool-cases (t.signs_for a)) [
    | inl signs ↦
        let same : t ≡ s = some-injective (rw signs at e) in
        (
          subst SignsAsItSays same h.0,
          subst (λ (x : EnvelopeSigner W Tx). x.signs_for a ≡ true) same signs,
        )
    | inr other ↦ found-signs a signers s h.1 (rw other at e)
  ]

  none_found :
      (a : Text) (signers : List (EnvelopeSigner W Tx))
      → find_signer a signers ≡ none
      → All (λ s. s.signs_for a ≡ false) signers
  unfolding find_signer
  none_found a [] e = tt
  none_found a (t ∷ signers) e = elim (Bool-cases (t.signs_for a)) [
    | inl signs ↦ absurd (ground (arith, signs, e))
    | inr other ↦ (other, none_found a signers (rw other at e))
  ]

  -- One round.
  abbrev Round : Tx → Text → List (EnvelopeSigner W Tx) → Result SignEnvelopeError Tx → Type 0
  Round tx a signers (ok tx') =
      Signed tx' a × ((b : Text) → Signed tx b → Signed tx' b) × IsSame sdk unsigned tx' tx
  Round tx a signers (err e) =
      ((e ≡ signer_not_found a) × All (λ s. s.signs_for a ≡ false) signers)
      ⊎ (e ≡ failed_to_sign_transaction a)

  read_signed-Round :
      (passphrase a : Text) (signers : List (EnvelopeSigner W Tx)) (s : EnvelopeSigner W Tx)
      (tx : Tx) (w : W) (xdr : Option Text)
      → SignsAsItSays s
      → sdk.network_passphrase tx ≡ passphrase
      → s.signs_for a ≡ true
      → (s.sign_transaction tx w).1 ≡ xdr
      → Round tx a signers (read_signed sdk passphrase a xdr)
  unfolding read_signed
  read_signed-Round passphrase a signers s tx w none says own signs e = inr refl
  read_signed-Round passphrase a signers s tx w (some xdr) says own signs e =
      elim (Option-cases (sdk.from_xdr xdr passphrase)) [
        | inl unread ↦ rw unread (inr refl)
        | inr (tx', reads) ↦
            let with_own : sdk.from_xdr xdr (sdk.network_passphrase tx) ≡ some tx' = rw own reads in
            rw reads (
              says.signs a xdr tx tx' w signs e with_own,
              λ b. says.keeps xdr tx tx' w b e with_own,
              says.same xdr tx tx' w e with_own,
            )
      ]

  sign_as-Round :
      (passphrase a : Text) (signers : List (EnvelopeSigner W Tx)) (tx : Tx) (w : W)
      → All SignsAsItSays signers
      → sdk.network_passphrase tx ≡ passphrase
      → Round tx a signers (sign_as sdk passphrase a (find_signer a signers) tx w).1
  unfolding sign_as
  sign_as-Round passphrase a signers tx w says own = elim (Option-cases (find_signer a signers)) [
    | inl missing ↦ rw missing (inl (refl, none_found a signers missing))
    | inr (s, found) ↦
        let (as_said, signs) = found-signs a signers s says found in
        rw found (read_signed-Round passphrase a signers s tx w _ as_said own signs refl)
  ]

  -- The rounds that are left, and the signatures that were there.
  abbrev Rounds :
      Tx
      → List SignatureRequirement
      → List (EnvelopeSigner W Tx)
      → Result SignEnvelopeError Tx
      → Type 0
  Rounds tx rs signers (ok tx') =
      AllSigned Signed tx' rs
      × ((b : Text) → Signed tx b → Signed tx' b)
      × IsSame sdk unsigned tx' tx
  Rounds tx rs signers (err e) =
      (a : Text) × IsNeeded a rs
      × (((e ≡ signer_not_found a) × All (λ s. s.signs_for a ≡ false) signers)
          ⊎ (e ≡ failed_to_sign_transaction a))

  continue-Rounds :
      (next : Tx → W → W × Result SignEnvelopeError Tx) (r : SignatureRequirement)
      (rs : List SignatureRequirement) (signers : List (EnvelopeSigner W Tx)) (tx : Tx)
      (x : W × Result SignEnvelopeError Tx)
      → Round tx r.address signers x.1
      → ((tx' : Tx) (w : W)
          → sdk.network_passphrase tx' ≡ sdk.network_passphrase tx
          → Rounds tx' rs signers (next tx' w).1)
      → Rounds tx (r ∷ rs) signers (continue_with sdk next x).1
  continue-Rounds next r rs signers tx (w, err e) round rest = (r.address, inl refl, round)
  continue-Rounds next r rs signers tx (w, ok tx') round rest =
      extend (next tx' w).1 round (rest tx' w round.2.1)
    where
      extend :
          (result : Result SignEnvelopeError Tx)
          → Round tx r.address signers (ok tx')
          → Rounds tx' rs signers result
          → Rounds tx (r ∷ rs) signers result
      extend (ok tx2) (signed, keeps, (same, net)) (all, kept, (sames, nets)) =
          ((kept r.address signed, all), (λ b h. kept b (keeps b h)), (sames ∙ same, nets ∙ net))
      extend (err e) now (a, needed, why) = (a, inr needed, why)

  sign_each-Rounds :
      (passphrase : Text) (signers : List (EnvelopeSigner W Tx)) (rs : List SignatureRequirement)
      (tx : Tx) (w : W)
      → All SignsAsItSays signers
      → sdk.network_passphrase tx ≡ passphrase
      → Rounds tx rs signers (sign_each sdk passphrase signers rs tx w).1
  unfolding sign_each
  sign_each-Rounds passphrase signers [] tx w says own = (tt, (λ b h. h), (refl, refl))
  sign_each-Rounds passphrase signers (r ∷ rs) tx w says own =
      continue-Rounds (sign_each sdk passphrase signers rs) r rs signers tx
        (sign_as sdk passphrase r.address (find_signer r.address signers) tx w)
        (sign_as-Round passphrase r.address signers tx w says own)
        (λ tx' w' net. sign_each-Rounds passphrase signers rs tx' w' says (net ∙ own))

  Outcome-Rounds :
      (tx : Tx) (rs : List SignatureRequirement) (signers : List (EnvelopeSigner W Tx))
      (result : Result SignEnvelopeError Tx)
      → Rounds tx rs signers result
      → SignOutcome tx rs signers result
  Outcome-Rounds tx rs signers (ok tx') (all, kept, same) = (all, same)
  Outcome-Rounds tx rs signers (err e) (a, needed, inl (missing, nobody)) =
      subst (λ (x : SignEnvelopeError). SignOutcome tx rs signers (err x)) (sym missing)
        (needed, nobody)
  Outcome-Rounds tx rs signers (err e) (a, needed, inr failed) =
      subst (λ (x : SignEnvelopeError). SignOutcome tx rs signers (err x)) (sym failed) needed

  guarded-SignOutcome :
      (tx : Tx) (rs : List SignatureRequirement) (signers : List (EnvelopeSigner W Tx)) (w : W)
      → All SignsAsItSays signers
      → SignOutcome tx rs signers (sign_guarded sdk tx rs signers w).1
  unfolding sign_guarded
  guarded-SignOutcome tx [] signers w says = refl
  guarded-SignOutcome tx (r ∷ rs) [] w says = refl
  guarded-SignOutcome tx (r ∷ rs) (s ∷ signers) w says =
      Outcome-Rounds tx (r ∷ rs) (s ∷ signers) _
        (sign_each-Rounds (sdk.network_passphrase tx) (s ∷ signers) (r ∷ rs) tx w says refl)

-- Where what each signer makes of a transaction, read with the network passphrase of that transaction,
-- is signed for the addresses that the signer says and otherwise the same, with the signatures that were
-- there: an envelope that `signEnvelope` returns is signed for every requirement, and without its
-- signatures it is what the given one is without them, on the same network; SIGNER_NOT_FOUND comes only for a required address for which no signer
-- signs, FAILED_TO_SIGN only for a required address, and the other two errors only without
-- requirements or without signers.
pub sign_envelope-SignOutcome :
    {Tx Op Memo Data Builder W : Type 0} (sdk : Sdk Tx Op Memo Data Builder)
    (Signed : Tx → Text → Type 0) (unsigned : Tx → Tx) (i : SignEnvelopeInput W Tx) (w : W)
    → All (SignsAsItSays sdk Signed unsigned) i.signers
    → SignOutcome sdk Signed unsigned i.transaction i.signature_requirements i.signers
        (sign_envelope sdk i w).1
unfolding sign_envelope
sign_envelope-SignOutcome sdk Signed unsigned i w says =
    guarded-SignOutcome sdk Signed unsigned i.transaction i.signature_requirements i.signers w says
