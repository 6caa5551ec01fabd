-- ===== src/Processes/SignAuth/Accounted.antt =====
-- Every entry is accounted for in what core/processes/sign-auth-entries/index.ts returns.
use mathlib.Core.List.{Perm, perm_middle}
use mathlib.Core.List.Perm
use colibri.Common.{
  ℕ, ◌≡◌, refl, sym, Bool, true, false, not, Option, none, some, List, [], ◌∷◌, ◌++◌, Text, Result,
  ok, ◌>>=◌, bind-eq-ok, ok-injective, if◌then◌else◌, push_some, Bool-cases, inl, inr, subst,
}
use colibri.Strkey.{ValidatedName}
use colibri.Processes.SignAuth.{
  AddressType, Credentials, source_account, address, AuthEntry, AuthSigner, LedgerValidity,
  SignAuthError, get_valid_until_ledger_seq, get_source_credential_auth,
  get_address_credential_auth, separate, sign_or_keep, sign_entries, sign_auth_entries,
}
use colibri.Processes.SignAuth.Forms.{Each, collect, Becomes, sign_or_keep-Becomes}

module _ (checksum : ValidatedName → Text → Bool) (signers : List AuthSigner) (passphrase : Text)
    (valid_until : ℕ) (remove : Bool) where
  abbrev sources : List AuthEntry → List AuthEntry
  sources auth = if not remove then get_source_credential_auth auth else []

  -- The three parts of the result, in the order of the code, hold what becomes of each entry.
  abbrev Accounted : List AuthEntry → List AuthEntry → Type 0
  Accounted auth pushed =
      (forms : List (Option AuthEntry)) × Each
        (λ e. Becomes checksum signers passphrase valid_until remove e e.credentials) auth forms
      × Perm (sources auth ++ ((separate auth).0 ++ pushed)) (collect forms)

  push_middle :
      (o : Option AuthEntry) (xs ys zs rest : List AuthEntry)
      → Perm (xs ++ (ys ++ zs)) rest
      → Perm (xs ++ (ys ++ push_some o zs)) (push_some o rest)
  push_middle none xs ys zs rest h = h
  push_middle (some x) xs ys zs rest h =
      Perm.trans (Perm.append_left xs (perm_middle ys zs))
        (Perm.trans (perm_middle xs (ys ++ zs)) (Perm.cons x h))

  -- The parts of a list that begins with an entry of each kind.
  source-parts :
      (e : AuthEntry) (auth : List AuthEntry)
      → e.credentials ≡ source_account
      → (sources (e ∷ auth) ≡ push_some (if remove then none else some e) (sources auth))
        × (separate (e ∷ auth) ≡ ((separate auth).0, e ∷ (separate auth).1))
        × (get_address_credential_auth (separate (e ∷ auth)).1
            ≡ get_address_credential_auth (separate auth).1)
  unfolding separate get_source_credential_auth get_address_credential_auth
  source-parts e auth k = (
    elim (Bool-cases remove) [ inl h ↦ rw h refl | inr h ↦ rw (h, k) refl ],
    rw k refl,
    rw k refl,
  )

  address-parts :
      (e : AuthEntry) (auth : List AuthEntry) (kind : AddressType) (text : Option Text)
      → e.credentials ≡ address kind text true
      → (sources (e ∷ auth) ≡ sources auth)
        × (separate (e ∷ auth) ≡ ((separate auth).0, e ∷ (separate auth).1))
        × (get_address_credential_auth (separate (e ∷ auth)).1
            ≡ e ∷ get_address_credential_auth (separate auth).1)
  unfolding separate get_source_credential_auth get_address_credential_auth
  address-parts e auth kind text k = (rw k refl, rw k refl, rw k refl)

  signed-parts :
      (e : AuthEntry) (auth : List AuthEntry) (kind : AddressType) (text : Option Text)
      → e.credentials ≡ address kind text false
      → (sources (e ∷ auth) ≡ sources auth)
        × (separate (e ∷ auth) ≡ (e ∷ (separate auth).0, (separate auth).1))
  unfolding separate get_source_credential_auth
  signed-parts e auth kind text k = (rw k refl, rw k refl)

  push_front :
      (o : Option AuthEntry) (xs ys rest : List AuthEntry)
      → Perm (xs ++ ys) rest
      → Perm (push_some o xs ++ ys) (push_some o rest)
  push_front none xs ys rest h = h
  push_front (some x) xs ys rest h = Perm.cons x h

  rejoin_parts :
      (xs xs' pushed rest : List AuthEntry) (p p' : List AuthEntry × List AuthEntry)
      → xs ≡ xs'
      → p ≡ p'
      → Perm (xs' ++ (p'.0 ++ pushed)) rest
      → Perm (xs ++ (p.0 ++ pushed)) rest
  rejoin_parts xs xs' pushed rest p p' s q h =
      subst (λ y. Perm (y ++ (p.0 ++ pushed)) rest) (sym s)
        (subst (λ y. Perm (xs' ++ (y.0 ++ pushed)) rest) (sym q) h)

  abbrev entries_signed : List AuthEntry → Result SignAuthError (List AuthEntry)
  entries_signed = sign_entries checksum signers passphrase valid_until remove

  first_entry :
      (e : AuthEntry) (auth : List AuthEntry) (pushed : List AuthEntry) (c : Credentials)
      → ((rest : List AuthEntry)
          → entries_signed (get_address_credential_auth (separate auth).1) ≡ ok rest
          → Accounted auth rest)
      → e.credentials ≡ c
      → entries_signed (get_address_credential_auth (separate (e ∷ auth)).1) ≡ ok pushed
      → Accounted (e ∷ auth) pushed
  unfolding sign_entries
  first_entry e auth pushed source_account ih k h =
      let (s, p, a) = source-parts e auth k in
      let (forms, each, perm) = ih pushed (subst (λ x. entries_signed x ≡ ok pushed) a h) in
      let form = if remove then none else some e in
      (
        form ∷ forms,
        (
          subst (λ c. Becomes checksum signers passphrase valid_until remove e c form) (sym k) refl,
          each,
        ),
        rejoin_parts _ _ pushed _ _ _ s p (push_front form (sources auth) _ _ perm),
      )
  first_entry e auth pushed (address kind text false) ih k h =
      let (s, p) = signed-parts e auth kind text k in
      let (forms, each, perm) =
        ih pushed (subst (λ y. entries_signed (get_address_credential_auth y.1) ≡ ok pushed) p h) in
      (
        some e ∷ forms,
        (
          subst (λ c. Becomes checksum signers passphrase valid_until remove e c (some e)) (sym k)
              refl,
          each,
        ),
        rejoin_parts _ _ pushed _ _ _ s p (
            Perm.trans (perm_middle (sources auth) ((separate auth).0 ++ pushed))
              (Perm.cons e perm)),
      )
  first_entry e auth pushed (address kind text true) ih k h =
      let (s, p, a) = address-parts e auth kind text k in
      let (form, e1, h1) =
        bind-eq-ok (sign_or_keep checksum signers passphrase valid_until remove e e.credentials)
          (λ o. entries_signed (get_address_credential_auth (separate auth).1) >>= λ rest.
            ok (push_some o rest))
          (subst (λ x. entries_signed x ≡ ok pushed) a h) in
      let (rest, e2, same) =
        bind-eq-ok (entries_signed (get_address_credential_auth (separate auth).1))
          (λ rest. ok (push_some form rest)) h1 in
      let (forms, each, perm) = ih rest e2 in
      let becomes =
        sign_or_keep-Becomes checksum signers passphrase valid_until remove e kind text form (
          subst (λ c. sign_or_keep checksum signers passphrase valid_until remove e c ≡ ok form) k
            e1) in
      (
        form ∷ forms,
        (
          subst (λ c. Becomes checksum signers passphrase valid_until remove e c form) (sym k)
              becomes,
          each,
        ),
        rejoin_parts _ _ pushed _ _ _ s p (
            subst
              (λ x.
                Perm (sources auth ++ ((separate auth).0 ++ x)) (push_some form (collect forms)))
              (ok-injective same) (push_middle form (sources auth) (separate auth).0 rest _ perm)),
      )

  nothing : Perm (sources [] ++ []) []
  unfolding get_source_credential_auth
  nothing = elim (Bool-cases remove) [ inl h ↦ rw h Perm.rfl | inr h ↦ rw h Perm.rfl ]

  every_entry :
      (auth : List AuthEntry) (pushed : List AuthEntry)
      → entries_signed (get_address_credential_auth (separate auth).1) ≡ ok pushed
      → Accounted auth pushed
  unfolding separate get_address_credential_auth sign_entries
  every_entry [] pushed h =
      ([], tt, subst (λ x. Perm (sources [] ++ x) []) (ok-injective h) nothing)
  every_entry (e ∷ auth) pushed h =
      first_entry e auth pushed e.credentials (every_entry auth) refl h

-- Where the code returns a list, it is the entries of the input in another order, where each is what
-- becomes of it: those of the source and those without a signer's kind of address stay unless the
-- unsigned ones are removed, those with a signature stay in any case, and each of the others is signed,
-- until the ledger that the validity asks for, by the first signer that signs for its address.
pub sign_auth_entries-Accounted :
    (checksum : ValidatedName → Text → Bool) (signers : List AuthSigner) (passphrase : Text)
    (validity : Option LedgerValidity) (latest : Option ℕ) (remove : Bool)
    (auth result : List AuthEntry)
    → sign_auth_entries checksum signers passphrase validity latest remove auth ≡ ok result
    → (until : ℕ) × (get_valid_until_ledger_seq validity latest ≡ ok until)
      × ((forms : List (Option AuthEntry)) × Each
            (λ e. Becomes checksum signers passphrase until remove e e.credentials)
            auth
            forms
          × Perm result (collect forms))
unfolding sign_auth_entries
sign_auth_entries-Accounted checksum signers passphrase validity latest remove auth result h =
    let (until, e1, h1) = bind-eq-ok (get_valid_until_ledger_seq validity latest) _ h in
    let (pushed, e2, same) =
      bind-eq-ok
        (sign_entries checksum signers passphrase until remove
          (get_address_credential_auth (separate auth).1))
        _ h1 in
    let (forms, each, perm) = every_entry checksum signers passphrase until remove auth pushed e2 in
    (until, e1, (forms, each, subst (λ x. Perm x (collect forms)) (ok-injective same) perm))
