-- ===== src/Sep10/Client.antt =====
-- sep10/src/client/client.ts, the client's configuration and its requests; Flow is what it does with
-- them. Its state is the world that its requests change, and the requests it has sent.
pub mod Flow
use colibri.Common.{
  ℕ, Bool, true, false, Option, none, some, List, [], ◌∷◌, ◌++◌, Text, codes, is_absent, Result, ok,
  err, ◌>>=◌, rethrow, if◌then◌else◌,
}
use colibri.Sep10.Transaction.{Sdk}
use colibri.Sep10.Challenge.{ChallengeError, Challenge, from_xdr}
use colibri.Sep10.Verify.{VerifyOptions, default, verify}
use colibri.Sep10.Sign.{AnySigner, sign_all, to_xdr}
use colibri.Sep10.Build.{given}
use colibri.Sep10.Jwt.{Jwt, JwtError, Decoding, from_token}

pub record ClientConfig : Type 0 where
  pub auth_endpoint : Text
  pub server_public_key : Text
  pub home_domain : Text
  pub network_passphrase : Text
  pub web_auth_domain : Option Text
  pub timeout : Option ℕ
  pub time_tolerance : Option ℕ
  pub skip_time_validation : Option Bool

-- `_config`, with the defaults filled in.
pub record Client : Type 0 where
  pub auth_endpoint : Text
  pub server_public_key : Text
  pub home_domain : Text
  pub network_passphrase : Text
  pub web_auth_domain : Option Text
  pub timeout : ℕ
  pub time_tolerance : ℕ
  pub skip_time_validation : Bool

unfoldable pub new_client : ClientConfig → Client
new_client config = record {
  auth_endpoint = config.auth_endpoint;
  server_public_key = config.server_public_key;
  home_domain = config.home_domain;
  network_passphrase = config.network_passphrase;
  web_auth_domain = config.web_auth_domain;
  timeout = default 30000 config.timeout;
  time_tolerance = default 5 config.time_tolerance;
  skip_time_validation = default false config.skip_time_validation;
}

pub record GetChallengeOptions : Type 0 where
  pub account : Text
  pub memo : Option Text
  pub client_domain : Option Text
  pub time_tolerance : Option ℕ
  pub skip_time_validation : Option Bool

-- The errors of client/error.ts, those that pass through from a challenge or a token, and `external`
-- for an error of the platform that leaves the code as it is.
pub data ClientError : Type 0 where
  missing_auth_endpoint : Text → ClientError
  invalid_toml : Text → Text → ClientError
  fetch_challenge_failed : Text → Option ℕ → ClientError
  invalid_server_response : Text → ClientError
  submit_challenge_failed : Text → Option ℕ → Option Text → ClientError
  missing_jwt : Text → ClientError
  timed_out : Text → ℕ → ClientError
  challenge_error : ChallengeError → ClientError
  jwt_error : JwtError → ClientError
  external : ClientError

-- What `response.json()` gives: it throws, or null, or an object with some of the fields.
pub data Body : Type 0 where
  malformed null_body : Body
  fields : Option Text → Option Text → Option Text → Body

pub record Response : Type 0 where
  pub is_ok : Bool
  pub status : ℕ
  pub body : Body

-- How a call of `fetch` ends.
pub data Fetched : Type 0 where
  response : Response → Fetched
  aborted failed : Fetched

-- A GET of an URL, or a POST of a transaction.
pub data Request : Type 0 where
  get : Text → Request
  post : Text → Text → Request

-- `URL`, `fetch`, the clock in milliseconds, and the decoding of tokens.
pub record Platform (W : Type 0) : Type 1 where
  pub Url : Type 0
  pub parse_url : Text → Option Url
  pub hostname : Url → Text
  pub set_param : Text → Text → Url → Url
  pub href : Url → Text
  pub fetch : Request → W → W × Fetched
  pub clock : W → ℕ
  pub decoding : Decoding

pub record Toml : Type 0 where
  pub domain : Option Text
  pub web_auth_endpoint : Option Text
  pub signing_key : Option Text
  pub network_passphrase : Option Text

pub record State (W : Type 0) : Type 0 where
  pub world : W
  pub sent : List Request

-- `if (!value) throw error`
unfoldable pub required : ClientError → Option Text → Result ClientError Text
required e none = err e
required e (some []) = err e
required e (some (c ∷ s)) = ok (c ∷ s)

unfoldable pub or_given : Option Text → Option Text → Option Text
or_given none b = b
or_given (some a) b = some a

module _ {W : Type 0} (p : Platform W) where
  hostname_of : Text → Option p.Url → Result ClientError Text
  hostname_of domain none = err (invalid_toml domain (codes "WEB_AUTH_ENDPOINT"))
  hostname_of domain (some url) = ok (p.hostname url)

  unfoldable pub from_toml : Toml → Option Text → Result ClientError Client
  unfolding hostname_of
  from_toml toml passphrase = do
    domain ← required (invalid_toml (codes "unknown") (codes "domain")) toml.domain
    endpoint ← required (missing_auth_endpoint domain) toml.web_auth_endpoint
    key ← required (invalid_toml domain (codes "SIGNING_KEY")) toml.signing_key
    network ←
        required (invalid_toml domain (codes "NETWORK_PASSPHRASE"))
          (or_given passphrase toml.network_passphrase)
    hostname ← hostname_of domain (p.parse_url endpoint)
    ok (
        new_client (record {
          auth_endpoint = endpoint;
          server_public_key = key;
          home_domain = domain;
          network_passphrase = network;
          web_auth_domain = some hostname;
          timeout = none;
          time_tolerance = none;
          skip_time_validation = none;
        }))

  abbrev set_param_if : Text → Option Text → p.Url → p.Url
  set_param_if name none url = url
  set_param_if name (some value) url = p.set_param name value url

  unfoldable pub challenge_url : GetChallengeOptions → p.Url → Text
  challenge_url o url = p.href (
      set_param_if (codes "client_domain") (given o.client_domain)
        (set_param_if (codes "memo") (given o.memo) (p.set_param (codes "account") o.account url)))

  abbrev note : Request → State W → W × Fetched → State W × Fetched
  note request st (world, fetched) =
      (record { world = world; sent = st.sent ++ request ∷ [] }, fetched)

  -- A call of `fetch`; the timer of `_fetchWithTimeout` only aborts it, and is cleared once it ends.
  unfoldable pub send : Request → State W → State W × Fetched
  send request st = note request st (p.fetch request st.world)
