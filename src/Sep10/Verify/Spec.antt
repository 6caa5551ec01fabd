-- ===== src/Sep10/Verify/Spec.antt =====
-- What `verify` of sep10/src/challenge/challenge.ts accepts, said without its order or its errors.
use colibri.Common.{
  ℕ, ◌+◌, ◌/◌, ◌≤◌, ◌≡◌, ◌↔◌, ◌≢◌, ◌⊎◌, refl, sym, ap, true, false, Option, none, some, List, [],
  ◌∷◌, ◌++◌, Text, text_eq_iff, is_absent, Result, ok, err, ◌>>◌, if◌then◌else◌, drop, All, subst,
  Option-cases, inl, inr, arith,
}
use colibri.Sep10.Transaction.{Bytes, DecoratedSignature, Sdk}
use colibri.Sep10.Challenge.{
  ChallengeError, Challenge, ChallengeOperation, Date, web_auth_domain_key, client_domain_key,
}
use colibri.Sep10.Verify.{
  VerifyOptions, default, default_time_tolerance, verify_time_bounds, find_signature,
  verify_server_signature, verify_home_domain, verify_home_domain_if, find_key,
  verify_web_auth_value, verify_source, verify_web_auth_domain, verify_sources,
  verify_operation_sources, verify,
}

abbrev pub NotBefore : ℕ → ℕ → Date → Type 0
NotBefore tolerance now none = Unit
NotBefore tolerance now (some ms) = ms / 1000 ≤ now + tolerance

abbrev pub NotAfter : ℕ → ℕ → Date → Type 0
NotAfter tolerance now none = Unit
NotAfter tolerance now (some ms) = now ≤ ms / 1000 + tolerance

-- The time is within the tolerance of both bounds; an invalid Date bounds nothing.
abbrev pub WithinBounds : ℕ → Date → Date → Date → Type 0
WithinBounds tolerance none min_time max_time = Unit
WithinBounds tolerance (some now) min_time max_time =
    NotBefore tolerance (now / 1000) min_time × NotAfter tolerance (now / 1000) max_time

unfoldable pub InTime : ℕ → Challenge → VerifyOptions → Type 0
InTime clock c o =
    (default false o.skip_time_validation ≡ true)
    ⊎ ((default false o.allow_expired ≡ true)
        ⊎ WithinBounds (default default_time_tolerance o.time_tolerance)
            (default (some clock) o.now) c.min_time c.max_time)

verify_time_bounds_iff :
    (clock : ℕ) (c : Challenge) (o : VerifyOptions)
    → (verify_time_bounds clock c o ≡ ok tt) ↔ InTime clock c o
unfolding verify_time_bounds InTime
verify_time_bounds_iff clock c o = ground arith

module _ (sdk : Sdk) (key : sdk.Key) (hash : Bytes) where
  -- Some signature verifies, and the check of none before it throws or succeeds.
  abbrev pub Verifies : List DecoratedSignature → Type 0
  Verifies signatures =
      (before : List DecoratedSignature) × (s : DecoratedSignature) × (after : List
        DecoratedSignature)
      × (signatures ≡ before ++ s ∷ after)
      × All (λ r. sdk.key_verify key hash r.signature ≡ some false) before
      × (sdk.key_verify key hash s.signature ≡ some true)

  find_signature-finds :
      (server : Text) (signatures : List DecoratedSignature)
      → find_signature sdk server key hash signatures ≡ ok tt
      → Verifies signatures
  unfolding find_signature
  find_signature-finds server [] h = ground arith
  find_signature-finds server (s ∷ signatures) h =
      elim (Option-cases (sdk.key_verify key hash s.signature)) [
        | inl e ↦ let bad = rw (e, find_signature) at h in ground arith
        | inr (true, e) ↦ ([], s, signatures, refl, tt, e)
        | inr (false, e) ↦
            let (before, r, after, split, none_before, last) =
              find_signature-finds server signatures (rw (e, find_signature) at h) in
            (s ∷ before, r, after, ap (λ t. s ∷ t) split, (e, none_before), last)
      ]

  Verifies-found :
      (server : Text) (before : List DecoratedSignature) (s : DecoratedSignature)
      (after : List DecoratedSignature)
      → All (λ r. sdk.key_verify key hash r.signature ≡ some false) before
      → sdk.key_verify key hash s.signature ≡ some true
      → find_signature sdk server key hash (before ++ s ∷ after) ≡ ok tt
  unfolding find_signature
  Verifies-found server [] s after h last = rw last refl
  Verifies-found server (r ∷ before) s after h last =
      rw h.0 (Verifies-found server before s after h.1 last)

  Verifies-accepted :
      (server : Text) (signatures : List DecoratedSignature)
      → Verifies signatures
      → find_signature sdk server key hash signatures ≡ ok tt
  Verifies-accepted server signatures (before, s, after, split, none_before, last) =
      subst (λ t. find_signature sdk server key hash t ≡ ok tt) (sym split)
        (Verifies-found server before s after none_before last)

unfoldable pub Signed : Sdk → Challenge → Text → Type 0
Signed sdk c server =
    (key : sdk.Key) × (sdk.from_public_key server ≡ some key)
    × Verifies sdk key (sdk.hash c.transaction) c.transaction.signatures

verify_server_signature_iff :
    (sdk : Sdk) (c : Challenge) (server : Text)
    → (verify_server_signature sdk c server ≡ ok tt) ↔ Signed sdk c server
unfolding verify_server_signature Signed
verify_server_signature_iff sdk c server = (
  λ h. elim (Option-cases (sdk.from_public_key server)) [
    | inl e ↦ let bad = rw (e, verify_server_signature) at h in ground arith
    | inr (key, e) ↦
        (key, e, find_signature-finds sdk key _ server _ (rw (e, verify_server_signature) at h))
  ],
  λ (key, e, v). rw (verify_server_signature, e) (Verifies-accepted sdk key _ server _ v),
)

-- The first operation of that key.
unfoldable pub FirstSource : Text → Text → List ChallengeOperation → Type 0
FirstSource key server [] = Unit
FirstSource key server (op ∷ ops) =
    ((op.key ≡ key) × (op.source_account ≡ server)) ⊎ ((op.key ≢ key) × FirstSource key server ops)

-- `home` is not asked for, or is the text.
abbrev pub AskedIs : Option Text → Option Text → Type 0
AskedIs asked actual = (is_absent asked ≡ true) ⊎ (actual ≡ asked)

unfoldable pub WebAuth : Challenge → Text → Option Text → Type 0
WebAuth c server asked =
    AskedIs asked c.web_auth_domain
    × ((is_absent c.web_auth_domain ≡ true) ⊎ FirstSource web_auth_domain_key server c.operations)

abbrev pub OfServer : Text → ChallengeOperation → Type 0
OfServer server op =
    (op.key ≡ client_domain_key) ⊎ ((op.key ≡ web_auth_domain_key) ⊎ (op.source_account ≡ server))

verify_home_domain_iff :
    (c : Challenge) (asked : Option Text)
    → (verify_home_domain_if c asked ≡ ok tt) ↔ AskedIs asked (some c.home_domain)
unfolding verify_home_domain_if verify_home_domain
verify_home_domain_iff c none = ground arith
verify_home_domain_iff c (some []) = ground arith
verify_home_domain_iff c (some (x ∷ s)) = ground (arith, text_eq_iff c.home_domain (x ∷ s))

verify_sources_iff :
    (server : Text) (ops : List ChallengeOperation)
    → (verify_sources server ops ≡ ok tt) ↔ All (OfServer server) ops
unfolding verify_sources
verify_sources_iff server [] = ground arith
verify_sources_iff server (op ∷ ops) = ground (
  arith,
  verify_sources_iff server ops,
  text_eq_iff op.key client_domain_key,
  text_eq_iff op.key web_auth_domain_key,
  text_eq_iff op.source_account server,
)

verify_source_iff :
    (server : Text) (ops : List ChallengeOperation)
    → (verify_source server (find_key web_auth_domain_key ops) ≡ ok tt)
      ↔ FirstSource web_auth_domain_key server ops
unfolding verify_source find_key FirstSource
verify_source_iff server [] = ground arith
verify_source_iff server (op ∷ ops) = ground (
  arith,
  verify_source_iff server ops,
  text_eq_iff op.key web_auth_domain_key,
  text_eq_iff op.source_account server,
)

bind_iff :
    (m k : Result ChallengeError (Unit {0})) → ((m >> k) ≡ ok tt) ↔ ((m ≡ ok tt) × (k ≡ ok tt))
bind_iff (ok u) k = ground arith
bind_iff (err e) k = ground arith

verify_web_auth_value_iff :
    (actual : Option Text) (c : Challenge) (asked : Option Text)
    → c.web_auth_domain ≡ actual
    → (verify_web_auth_value c asked ≡ ok tt) ↔ AskedIs asked actual
unfolding verify_web_auth_value
verify_web_auth_value_iff actual c none e = ground arith
verify_web_auth_value_iff actual c (some []) e = ground arith
verify_web_auth_value_iff none c (some (x ∷ s)) e = rw e (ground arith)
verify_web_auth_value_iff (some t) c (some (x ∷ s)) e = rw e (ground (arith, text_eq_iff t (x ∷ s)))

verify_web_auth_source_iff :
    (c : Challenge) (server : Text)
    → ((if is_absent c.web_auth_domain
          then ok tt
          else verify_source server (find_key web_auth_domain_key c.operations))
        ≡ ok tt)
      ↔ ((is_absent c.web_auth_domain ≡ true) ⊎ FirstSource web_auth_domain_key server c.operations)
verify_web_auth_source_iff c server = ground (arith, verify_source_iff server c.operations)

verify_web_auth_domain_iff :
    (c : Challenge) (server : Text) (asked : Option Text)
    → (verify_web_auth_domain c server asked ≡ ok tt) ↔ WebAuth c server asked
unfolding verify_web_auth_domain WebAuth
verify_web_auth_domain_iff c server asked =
    let value = verify_web_auth_value_iff c.web_auth_domain c asked refl in
    let source = verify_web_auth_source_iff c server in
    let both = bind_iff (verify_web_auth_value c asked) _ in
    (
      λ h. let (a, b) = both.0 h in (value.0 a, source.0 b),
      λ (a, b). both.1 (value.1 a, source.1 b),
    )

-- What SEP-10 asks of a challenge, in the reading of the code.
pub record Accepts (sdk : Sdk) (clock : ℕ) (c : Challenge) (server : Text) (o : VerifyOptions)
    : Type 0 where
  pub in_time : InTime clock c o
  pub signed : Signed sdk c server
  pub home_domain : AskedIs o.home_domain (some c.home_domain)
  pub web_auth : WebAuth c server o.web_auth_domain
  pub sources : All (OfServer server) (drop 1 c.operations)

-- `verify` accepts a challenge exactly where the time is within the bounds and the tolerance (or that
-- check is switched off), some signature of the transaction verifies with the server's key, the home
-- domain and the web auth domain are those that are asked for, the first web_auth_domain operation is of
-- the server, and so is each operation from the second on that is neither that nor client_domain.
pub verify_iff :
    (sdk : Sdk) (clock : ℕ) (c : Challenge) (server : Text) (o : VerifyOptions)
    → (verify sdk clock c server o ≡ ok tt) ↔ Accepts sdk clock c server o
unfolding verify verify_operation_sources
verify_iff sdk clock c server o = (
  λ h.
      let (time, h1) = (bind_iff _ _).0 h in
      let (signature, h2) = (bind_iff _ _).0 h1 in
      let (home, h3) = (bind_iff _ _).0 h2 in
      let (web, sources) = (bind_iff _ _).0 h3 in
      record {
        in_time = (verify_time_bounds_iff clock c o).0 time;
        signed = (verify_server_signature_iff sdk c server).0 signature;
        home_domain = (verify_home_domain_iff c o.home_domain).0 home;
        web_auth = (verify_web_auth_domain_iff c server o.web_auth_domain).0 web;
        sources = (verify_sources_iff server (drop 1 c.operations)).0 sources;
      },
  λ a.
      rw
        (
          (verify_time_bounds_iff clock c o).1 a.in_time,
          (verify_server_signature_iff sdk c server).1 a.signed,
          (verify_home_domain_iff c o.home_domain).1 a.home_domain,
          (verify_web_auth_domain_iff c server o.web_auth_domain).1 a.web_auth,
          (verify_sources_iff server (drop 1 c.operations)).1 a.sources,
        )
        refl,
)
