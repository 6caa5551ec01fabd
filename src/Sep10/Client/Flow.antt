-- ===== src/Sep10/Client/Flow.antt =====
-- sep10/src/client/client.ts: the client fetches a challenge, verifies it, signs it and submits it.
pub mod Safety
use colibri.Common.{
  ℕ, Bool, true, false, Option, none, some, List, [], ◌∷◌, ◌++◌, Text, codes, is_absent, Result, ok,
  err, ◌>>=◌, ◌>>◌, rethrow, if◌then◌else◌,
}
use colibri.Sep10.Transaction.{Sdk}
use colibri.Sep10.Challenge.{ChallengeError, Challenge, from_xdr}
use colibri.Sep10.Verify.{VerifyOptions, default, verify}
use colibri.Sep10.Sign.{AnySigner, sign_all, to_xdr}
use colibri.Sep10.Build.{given}
use colibri.Sep10.Jwt.{Jwt, JwtError, Decoding, from_token}
use colibri.Sep10.Client.{
  Client, GetChallengeOptions, ClientError, Body, Response, Fetched, Request, Platform, State,
  required, challenge_url, send, fetch_challenge_failed, invalid_server_response,
  submit_challenge_failed, missing_jwt, timed_out, challenge_error, jwt_error, external, malformed,
  null_body, fields, response, aborted, failed, get, post,
}

unfoldable pub verify_options : Client → GetChallengeOptions → VerifyOptions
verify_options client o = record {
  home_domain = some client.home_domain;
  web_auth_domain = given client.web_auth_domain;
  allow_expired = none;
  now = none;
  time_tolerance = some (default client.time_tolerance o.time_tolerance);
  skip_time_validation = some (default client.skip_time_validation o.skip_time_validation);
}

module _ (sdk : Sdk) (client : Client) where
  -- What is done with the transaction of the response, at the time that the clock shows.
  unfoldable pub checked_challenge : ℕ → GetChallengeOptions → Text → Result ClientError Challenge
  checked_challenge clock o xdr = do
    challenge ← rethrow challenge_error (from_xdr sdk xdr client.network_passphrase)
    rethrow challenge_error
        (verify sdk clock challenge client.server_public_key (verify_options client o))
    ok challenge

  unfoldable pub challenge_in_body :
      ℕ → GetChallengeOptions → Text → Body → Result ClientError Challenge
  challenge_in_body clock o url malformed = err (invalid_server_response url)
  challenge_in_body clock o url null_body = err external
  challenge_in_body clock o url (fields transaction token error) = do
    xdr ← required (invalid_server_response url) transaction
    checked_challenge clock o xdr

  unfoldable pub challenge_in :
      ℕ → GetChallengeOptions → Text → Fetched → Result ClientError Challenge
  challenge_in clock o url aborted = err (timed_out url client.timeout)
  challenge_in clock o url failed = err (fetch_challenge_failed url none)
  challenge_in clock o url (response r) =
      if r.is_ok
      then challenge_in_body clock o url r.body
      else err (fetch_challenge_failed url (some r.status))

module _ {W : Type 0} (sdk : Sdk) (p : Platform W) (client : Client) where
  abbrev answer_challenge :
      GetChallengeOptions → Text → State W × Fetched → State W × Result ClientError Challenge
  answer_challenge o url (st, fetched) =
      (st, challenge_in sdk client (p.clock st.world) o url fetched)

  abbrev fetch_challenge :
      GetChallengeOptions → Option p.Url → State W → State W × Result ClientError Challenge
  fetch_challenge o none st = (st, err external)
  fetch_challenge o (some url) st =
      answer_challenge o (challenge_url p o url) (send p (get (challenge_url p o url)) st)

  unfoldable pub get_challenge :
      GetChallengeOptions → State W → State W × Result ClientError Challenge
  get_challenge o st = fetch_challenge o (p.parse_url client.auth_endpoint) st

  unfoldable pub token_in_body : Response → Body → Result ClientError Jwt
  token_in_body r null_body = err external
  token_in_body r malformed =
      if r.is_ok
      then err (missing_jwt client.auth_endpoint)
      else err (submit_challenge_failed client.auth_endpoint (some r.status) none)
  token_in_body r (fields transaction token error) =
      if r.is_ok
      then (required (missing_jwt client.auth_endpoint) token >>= λ t.
          rethrow jwt_error (from_token p.decoding t))
      else err (submit_challenge_failed client.auth_endpoint (some r.status) error)

  unfoldable pub token_in : Fetched → Result ClientError Jwt
  unfolding token_in_body
  token_in aborted = err (timed_out client.auth_endpoint client.timeout)
  token_in failed = err (submit_challenge_failed client.auth_endpoint none none)
  token_in (response r) = token_in_body r r.body

  abbrev answer_token : State W × Fetched → State W × Result ClientError Jwt
  answer_token (st, fetched) = (st, token_in fetched)

  unfoldable pub submit_challenge : Challenge → State W → State W × Result ClientError Jwt
  submit_challenge challenge st =
      answer_token (send p (post client.auth_endpoint (to_xdr sdk challenge)) st)

  unfoldable pub submit_signed :
      Result ChallengeError Challenge → State W → State W × Result ClientError Jwt
  submit_signed (err e) st = (st, err (challenge_error e))
  submit_signed (ok signed) st = submit_challenge signed st

  unfoldable pub sign_and_submit :
      List (AnySigner sdk)
      → State W × Result ClientError Challenge
      → State W × Result ClientError Jwt
  unfolding submit_signed
  sign_and_submit signers (st, err e) = (st, err e)
  sign_and_submit signers (st, ok challenge) = submit_signed (sign_all sdk challenge signers) st

  -- The signers of `signer`, an array or one, and then the extra ones.
  unfoldable pub authenticate :
      GetChallengeOptions
      → List (AnySigner sdk)
      → Option (List (AnySigner sdk))
      → State W
      → State W × Result ClientError Jwt
  authenticate o signers extra st =
      sign_and_submit (signers ++ default [] extra) (get_challenge o st)
