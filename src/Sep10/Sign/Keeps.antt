-- ===== src/Sep10/Sign/Keeps.antt =====
-- Signing a challenge of sep10/src/challenge/challenge.ts keeps what `verify` checked.
use colibri.Common.{
  ℕ, suc, ◌≡◌, refl, sym, ap, ◌∙◌, List, [], ◌∷◌, ◌++◌, append_assoc, append-nil, Text, ok,
  bind-eq-ok, ok-injective, subst, length,
}
use colibri.Sep10.Transaction.{DecoratedSignature, Transaction, Sdk}
use colibri.Sep10.Challenge.{Challenge}
use colibri.Sep10.Verify.{VerifyOptions, verify}
use colibri.Sep10.Verify.Spec.{Accepts, Signed, InTime, WebAuth, verify_iff}
use colibri.Sep10.Sign.{AnySigner, add_signature, decorate, sign, sign_all}

-- The hash of a transaction is over what is signed, and not over the signatures.
abbrev pub HashOfBody : Sdk → Type 0
HashOfBody sdk =
    (t : Transaction) (signatures : List DecoratedSignature)
    → sdk.hash (record t { signatures = signatures }) ≡ sdk.hash t

-- The challenge with further signatures.
abbrev pub with_signatures : Challenge → List DecoratedSignature → Challenge
with_signatures c added = record c {
  transaction = record (c.transaction) { signatures = c.transaction.signatures ++ added };
}

signed-none : (c : Challenge) → c ≡ with_signatures c []
signed-none c =
    ap (λ xs. record c { transaction = record (c.transaction) { signatures = xs } })
      (sym (append-nil c.transaction.signatures))

signed-both :
    (c : Challenge) (r : DecoratedSignature) (added : List DecoratedSignature)
    → with_signatures (add_signature c r) added ≡ with_signatures c (r ∷ added)
signed-both c r added =
    ap (λ xs. record c { transaction = record (c.transaction) { signatures = xs } })
      (append_assoc c.transaction.signatures (r ∷ []) added)

module _ (sdk : Sdk) (h : HashOfBody sdk) where
  with_signatures-Accepts :
      (clock : ℕ) (c : Challenge) (server : Text) (o : VerifyOptions)
      (added : List DecoratedSignature)
      → Accepts sdk clock c server o
      → Accepts sdk clock (with_signatures c added) server o
  unfolding Signed InTime WebAuth
  with_signatures-Accepts clock c server o added a =
      let (key, e, (before, s, after, split, none_before, last)) = a.signed in
      let same = h c.transaction (c.transaction.signatures ++ added) in
      record {
        in_time = a.in_time;
        signed = (
          key,
          e,
          (
            before,
            s,
            after ++ added,
            ap (λ t. t ++ added) split ∙ append_assoc before (s ∷ after) added,
            rw same none_before,
            rw same last,
          ),
        );
        home_domain = a.home_domain;
        web_auth = a.web_auth;
        sources = a.sources;
      }

  sign_all-with_signatures :
      (c d : Challenge) (signers : List (AnySigner sdk))
      → sign_all sdk c signers ≡ ok d
      → (added : List DecoratedSignature) × (d ≡ with_signatures c added)
        × (length added ≡ length signers)
  unfolding sign_all sign
  sign_all-with_signatures c d [] k = ([], sym (ok-injective k) ∙ signed-none c, refl)
  sign_all-with_signatures c d (s ∷ signers) k =
      let (c', e, rest) = bind-eq-ok (sign sdk c s) (λ x. sign_all sdk x signers) k in
      let (r, e', made) =
        bind-eq-ok (decorate sdk (sdk.hash c.transaction) s) (λ x. ok (add_signature c x)) e in
      let (added, same, count) = sign_all-with_signatures c' d signers rest in
      (
        r ∷ added,
        (same
            ∙ ap (λ x. with_signatures x added) (sym (ok-injective made))
            ∙ signed-both c r added),
        ap suc count,
      )

-- Where `verify` accepts a challenge it still does, at the same time and with the same options, once any
-- number of signers have signed; each signer adds one signature, at the end.
pub verify-sign_all :
    (sdk : Sdk) (h : HashOfBody sdk) (clock : ℕ) (c d : Challenge) (server : Text)
    (o : VerifyOptions) (signers : List (AnySigner sdk))
    → verify sdk clock c server o ≡ ok tt
    → sign_all sdk c signers ≡ ok d
    → (verify sdk clock d server o ≡ ok tt)
      × ((added : List DecoratedSignature) × (d ≡ with_signatures c added)
          × (length added ≡ length signers))
verify-sign_all sdk h clock c d server o signers v k =
    let (added, same, count) = sign_all-with_signatures sdk h c d signers k in
    let a =
      with_signatures-Accepts sdk h clock c server o added
        ((verify_iff sdk clock c server o).0 v) in
    (
      subst (λ x. verify sdk clock x server o ≡ ok tt) (sym same)
          ((verify_iff sdk clock (with_signatures c added) server o).1 a),
      (added, same, count),
    )
