-- ===== src/Sep10/Verify.antt =====
-- sep10/src/challenge/challenge.ts, the validation: `verify` and what it calls, and `isValid`.
pub mod Spec
use colibri.Common.{
  ℕ, ◌+◌, ◌-◌, ◌/◌, Bool, true, false, Option, none, some, List, [], ◌∷◌, ◌&&◌, ◌||◌, not, Text,
  text_eq, is_absent, Result, ok, err, ◌>>=◌, ◌>>◌, assert, if◌then◌else◌, ltb, drop,
}
use colibri.Sep10.Transaction.{Bytes, DecoratedSignature, Transaction, Sdk}
use colibri.Sep10.Challenge.{
  ChallengeError, Challenge, ChallengeOperation, Date, web_auth_domain_key, client_domain_key,
  external, challenge_expired, invalid_server_signature, invalid_home_domain,
  web_auth_domain_mismatch, web_auth_domain_source, invalid_operation_source,
}

-- A tolerance is a whole number of seconds.
pub record VerifyOptions : Type 0 where
  pub home_domain : Option Text
  pub web_auth_domain : Option Text
  pub allow_expired : Option Bool
  pub now : Option Date
  pub time_tolerance : Option ℕ
  pub skip_time_validation : Option Bool

-- `const { name = value } = options`
abbrev pub default {ℓ} : {A : Type ℓ} → A → Option A → A
default a none = a
default a (some b) = b

abbrev pub default_time_tolerance : ℕ
default_time_tolerance = 5

-- `Math.floor(date.getTime() / 1000)`, NaN for an invalid Date.
abbrev pub seconds_of : Date → Option ℕ
seconds_of none = none
seconds_of (some ms) = some (ms / 1000)

-- `a + b` and `a - b` with a number that may be NaN. A difference stops at 0 here, which no time is
-- below.
abbrev pub plus : Option ℕ → ℕ → Option ℕ
plus none b = none
plus (some a) b = some (a + b)

abbrev pub minus : Option ℕ → ℕ → Option ℕ
minus none b = none
minus (some a) b = some (a - b)

-- `a < b`, false with NaN.
abbrev pub is_below : Option ℕ → Option ℕ → Bool
is_below none b = false
is_below (some a) none = false
is_below (some a) (some b) = ltb a b

-- `new Date() > this._timeBounds.maxTime`
unfoldable pub is_expired : ℕ → Challenge → Bool
is_expired clock c = is_below c.max_time (some clock)

unfoldable pub verify_time_bounds : ℕ → Challenge → VerifyOptions → Result ChallengeError (Unit {0})
verify_time_bounds clock c o =
    let now = seconds_of (default (some clock) o.now) in
    let tolerance = default default_time_tolerance o.time_tolerance in
    let min_time = seconds_of c.min_time in
    let max_time = seconds_of c.max_time in
    if default false o.skip_time_validation || default false o.allow_expired
    then ok tt
    else if is_below now (minus min_time tolerance) || is_below (plus max_time tolerance) now
    then err (challenge_expired min_time max_time now)
    else ok tt

module _ (sdk : Sdk) where
  unfoldable pub find_signature :
      Text → sdk.Key → Bytes → List DecoratedSignature → Result ChallengeError (Unit {0})
  find_signature server key hash [] = err (invalid_server_signature server)
  find_signature server key hash (s ∷ signatures) =
      let rest = find_signature server key hash signatures in
      elim (sdk.key_verify key hash s.signature) [
        | none ↦ err external
        | some valid ↦ if valid then ok tt else rest
      ]

  unfoldable pub verify_server_signature : Challenge → Text → Result ChallengeError (Unit {0})
  verify_server_signature c server = elim (sdk.from_public_key server) [
    | none ↦ err external
    | some key ↦ find_signature server key (sdk.hash c.transaction) c.transaction.signatures
  ]

unfoldable pub verify_home_domain : Challenge → Text → Result ChallengeError (Unit {0})
verify_home_domain c expected =
    assert (text_eq c.home_domain expected) (invalid_home_domain c.home_domain (some expected))

-- `if (homeDomain) { … }`
unfoldable pub verify_home_domain_if : Challenge → Option Text → Result ChallengeError (Unit {0})
verify_home_domain_if c none = ok tt
verify_home_domain_if c (some []) = ok tt
verify_home_domain_if c (some (x ∷ s)) = verify_home_domain c (x ∷ s)

-- `this._operations.find((op) => op.key === key)`
unfoldable pub find_key : Text → List ChallengeOperation → Option ChallengeOperation
find_key key [] = none
find_key key (op ∷ ops) = if text_eq op.key key then some op else find_key key ops

abbrev pub is_text : Option Text → Text → Bool
is_text none expected = false
is_text (some s) expected = text_eq s expected

unfoldable pub verify_web_auth_value : Challenge → Option Text → Result ChallengeError (Unit {0})
verify_web_auth_value c none = ok tt
verify_web_auth_value c (some []) = ok tt
verify_web_auth_value c (some (x ∷ s)) =
    assert (is_text c.web_auth_domain (x ∷ s)) (web_auth_domain_mismatch (x ∷ s) c.web_auth_domain)

unfoldable pub verify_source : Text → Option ChallengeOperation → Result ChallengeError (Unit {0})
verify_source server none = ok tt
verify_source server (some op) =
    assert (text_eq op.source_account server) (web_auth_domain_source op.source_account)

unfoldable pub verify_web_auth_domain :
    Challenge → Text → Option Text → Result ChallengeError (Unit {0})
verify_web_auth_domain c server expected =
    verify_web_auth_value c expected
    >> (if is_absent c.web_auth_domain
        then ok tt
        else verify_source server (find_key web_auth_domain_key c.operations))

-- The loop, from the second operation on.
unfoldable pub verify_sources : Text → List ChallengeOperation → Result ChallengeError (Unit {0})
verify_sources server [] = ok tt
verify_sources server (op ∷ ops) =
    let rest = verify_sources server ops in
    if text_eq op.key client_domain_key
    then rest
    else if text_eq op.key web_auth_domain_key
    then rest
    else if text_eq op.source_account server
    then rest
    else err (invalid_operation_source op.key op.source_account server)

unfoldable pub verify_operation_sources : Challenge → Text → Result ChallengeError (Unit {0})
verify_operation_sources c server = verify_sources server (drop 1 c.operations)

module _ (sdk : Sdk) where
  -- `clock` is what `new Date()` reads.
  unfoldable pub verify : ℕ → Challenge → Text → VerifyOptions → Result ChallengeError (Unit {0})
  verify clock c server o = do
    verify_time_bounds clock c o
    verify_server_signature sdk c server
    verify_home_domain_if c o.home_domain
    verify_web_auth_domain c server o.web_auth_domain
    verify_operation_sources c server

  accepted : Result ChallengeError (Unit {0}) → Bool
  accepted (ok u) = true
  accepted (err e) = false

  unfoldable pub is_valid : ℕ → Challenge → Text → VerifyOptions → Bool
  unfolding accepted
  is_valid clock c server o = accepted (verify clock c server o)
