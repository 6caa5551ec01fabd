-- ===== src/Sep10/Build.antt =====
-- sep10/src/challenge/challenge.ts, `build`: a challenge from the options of a server.
pub mod Reading
pub mod RoundTrip
use colibri.Common.{
  ℕ, ◌+◌, ◌/◌, Bool, true, false, ◌||◌, Option, none, some, List, [], ◌∷◌, ◌++◌, Text, codes,
  is_absent, Result, ok, err, ◌>>=◌, ◌>>◌, assert, if◌then◌else◌,
}
use colibri.Sep10.Transaction.{Bytes, BuilderInput, Transaction, Sdk}
use colibri.Sep10.Challenge.{
  ChallengeError, Challenge, external, muxed_account_with_memo, auth_key_suffix,
  web_auth_domain_key, client_domain_key, starts_with_m, from_transaction,
}
use colibri.Sep10.Verify.{default}

pub record BuildOptions : Type 0 where
  pub server_account : Text
  pub client_account : Text
  pub home_domain : Text
  pub network_passphrase : Text
  pub web_auth_domain : Option Text
  pub client_domain : Option Text
  pub client_domain_account : Option Text
  pub memo : Option Text
  pub timeout : Option ℕ
  pub nonce : Option Bytes

abbrev pub default_timeout : ℕ
default_timeout = 900

-- A text where it is truthy.
abbrev pub given : Option Text → Option Text
given none = none
given (some []) = none
given (some (c ∷ s)) = some (c ∷ s)

unfoldable pub check_memo : Text → Option Text → Result ChallengeError (Unit {0})
check_memo client none = ok tt
check_memo client (some memo) =
    if starts_with_m client then err (muxed_account_with_memo client memo) else ok tt

abbrev pub web_auth_operation : Text → Option Text → List (Text × Text × Text)
web_auth_operation server none = []
web_auth_operation server (some domain) = (server, web_auth_domain_key, domain) ∷ []

abbrev pub client_domain_operation : Option Text → Option Text → List (Text × Text × Text)
client_domain_operation (some domain) (some account) = (account, client_domain_key, domain) ∷ []
client_domain_operation _ _ = []

module _ (sdk : Sdk) where
  -- What the builder gets, from the clock in milliseconds and the random bytes.
  unfoldable pub builder_input : ℕ → Bytes → BuildOptions → BuilderInput
  builder_input clock random o =
      let now = clock / 1000 in
      record {
        account = o.server_account;
        sequence = codes "-1";
        fee = codes "100";
        network_passphrase = o.network_passphrase;
        min_time = now;
        max_time = now + default default_timeout o.timeout;
        memo_id = given o.memo;
        operations =
            (
              o.client_account,
              o.home_domain ++ auth_key_suffix,
              sdk.to_base64 (default random o.nonce),
            )
              ∷ web_auth_operation o.server_account (given o.web_auth_domain)
            ++ client_domain_operation (given o.client_domain) (given o.client_domain_account);
      }

  unfoldable pub built : Option Transaction → Result ChallengeError Transaction
  built none = err external
  built (some t) = ok t

  unfoldable pub build : ℕ → Bytes → BuildOptions → Result ChallengeError Challenge
  unfolding built
  build clock random o = do
    assert (sdk.accepts_account o.server_account) external
    check_memo o.client_account (given o.memo)
    t ← built (sdk.build_transaction (builder_input clock random o))
    from_transaction sdk t o.network_passphrase
