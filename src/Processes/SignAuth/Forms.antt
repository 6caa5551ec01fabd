-- ===== src/Processes/SignAuth/Forms.antt =====
-- What becomes of each entry in what core/processes/sign-auth-entries/index.ts returns.
use colibri.Common.{
  ℕ, ◌≡◌, refl, sym, Bool, true, false, Option, none, some, List, [], ◌∷◌, Text, ok, bind-eq-ok,
  ok-injective, some-injective, if◌then◌else◌, push_some, Bool-cases, inl, inr, arith, subst,
}
use colibri.Strkey.{ValidatedName}
use colibri.Processes.SignAuth.{
  AddressType, account, contract, muxed_account, claimable_balance, liquidity_pool, Credentials,
  source_account, address, AuthEntry, AuthSigner, find_signer, required_signer, signed_by,
  sign_entry, sign_or_keep,
}

-- The entries of two lists correspond one by one.
abbrev pub Each {ℓ} : {A : Type ℓ} {B : Type ℓ} → (A → B → Type 0) → List A → List B → Type 0
Each R [] [] = Unit
Each R (x ∷ xs) (y ∷ ys) = R x y × Each R xs ys
Each R _ _ = ⊥

abbrev pub collect {ℓ} : {A : Type ℓ} → List (Option A) → List A
collect [] = []
collect (o ∷ os) = push_some o (collect os)

module _ (checksum : ValidatedName → Text → Bool) (signers : List AuthSigner) (passphrase : Text)
    (valid_until : ℕ) (remove : Bool) where
  -- The entry as its address's signer signs it, until the ledger.
  abbrev pub SignedForm : AuthEntry → Option Text → Option AuthEntry → Type 0
  SignedForm e text form =
      (required : Text) × (s : AuthSigner) × (signed : AuthEntry) × (text ≡ some required)
      × (find_signer required signers ≡ some s)
      × (s.signs_for required ≡ true)
      × (s.sign_auth_entry e valid_until passphrase ≡ some signed)
      × (form ≡ some signed)

  abbrev pub Kept : AuthEntry → Option AuthEntry → Type 0
  Kept e form = form ≡ (if remove then none else some e)

  -- What becomes of an entry: one that is signed stays, one of an account or a contract is signed, and
  -- any other stays unless the unsigned ones are removed.
  abbrev pub Becomes : AuthEntry → Credentials → Option AuthEntry → Type 0
  Becomes e source_account form = Kept e form
  Becomes e (address kind text false) form = form ≡ some e
  Becomes e (address account text true) form = SignedForm e text form
  Becomes e (address contract text true) form = SignedForm e text form
  Becomes e (address _ text true) form = Kept e form

  find_signer-signs :
      (required : Text) (ss : List AuthSigner) (s : AuthSigner)
      → find_signer required ss ≡ some s
      → s.signs_for required ≡ true
  unfolding find_signer
  find_signer-signs required [] s h = ground arith
  find_signer-signs required (t ∷ ss) s h = elim (Bool-cases (t.signs_for required)) [
    | inl signs ↦
        subst (λ x. x.signs_for required ≡ true) (some-injective (rw (find_signer, signs) at h))
          signs
    | inr passed ↦ find_signer-signs required ss s (rw (find_signer, passed) at h)
  ]

  required_signer-is :
      (text : Option Text) (required : Text)
      → required_signer checksum signers passphrase valid_until remove text ≡ ok required
      → text ≡ some required
  unfolding required_signer
  required_signer-is none required h = ground arith
  required_signer-is (some text) required h = ground arith

  signed_by-ok :
      (e : AuthEntry) (o : Option AuthSigner) (required : Text) (signed : AuthEntry)
      → signed_by checksum signers passphrase valid_until remove e o required ≡ ok signed
      → (s : AuthSigner) × (o ≡ some s) × (s.sign_auth_entry e valid_until passphrase ≡ some signed)
  signed_by-ok e none required signed h = ground arith
  signed_by-ok e (some s) required signed h = (s, refl, ground arith)

  sign_entry-SignedForm :
      (e : AuthEntry) (text : Option Text) (form : Option AuthEntry)
      → sign_entry checksum signers passphrase valid_until remove e text ≡ ok form
      → SignedForm e text form
  unfolding sign_entry
  sign_entry-SignedForm e text form h =
      let (required, e1, rest) =
        bind-eq-ok (required_signer checksum signers passphrase valid_until remove text) _ h in
      let (signed, e2, same) =
        bind-eq-ok
          (signed_by checksum signers passphrase valid_until remove e (find_signer required signers)
            required)
          (λ x. ok (some x)) rest in
      let (s, found, made) = signed_by-ok e (find_signer required signers) required signed e2 in
      (
        required,
        s,
        signed,
        required_signer-is text required e1,
        found,
        find_signer-signs required signers s found,
        made,
        sym (ok-injective same),
      )

  pub sign_or_keep-Becomes :
      (e : AuthEntry) (kind : AddressType) (text : Option Text) (form : Option AuthEntry)
      → sign_or_keep checksum signers passphrase valid_until remove e (address kind text true)
        ≡ ok form
      → Becomes e (address kind text true) form
  unfolding sign_or_keep
  sign_or_keep-Becomes e account text form h = sign_entry-SignedForm e text form h
  sign_or_keep-Becomes e contract text form h = sign_entry-SignedForm e text form h
  sign_or_keep-Becomes e muxed_account text form h = sym (ok-injective h)
  sign_or_keep-Becomes e claimable_balance text form h = sym (ok-injective h)
  sign_or_keep-Becomes e liquidity_pool text form h = sym (ok-injective h)
