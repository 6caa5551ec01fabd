-- ===== src/Sep10/Tests.antt =====
-- A challenge of a small SDK, read, verified and signed, and instances of the theorems; Flow builds and
-- submits one.
mod Flow
use colibri.Common.{
  ℕ, ◌≡◌, refl, ap, ◌↔◌, Bool, true, false, Option, none, some, List, [], ◌∷◌, ◌++◌, map, Text,
  codes, text_eq, ok, Result, subst, sym, length, length-append, replicate, to_decimal,
  if◌then◌else◌, arith, inl, inr, drop, leb, decimal_value,
}
use colibri.Sep10.Transaction.{
  Bytes, ManageData, Operation, manage_data, other, BuilderInput, TimeBounds, DecoratedSignature,
  Transaction, Sdk, id, none_memo,
}
use colibri.Sep10.Challenge.{
  Challenge, date_of_seconds, ends_with, first_operation, bounds_of, source_of, nonce_of, memo_of,
  parse_operations, from_transaction, decoded, from_xdr,
}
use colibri.Sep10.Challenge.Reads.{Reads, from_transaction-Reads, memo_text}
use colibri.Sep10.Guards.{is_challenge_transaction, first_is_challenge}
use colibri.Sep10.Guards.Agree.{is_challenge_transaction_iff}
use colibri.Sep10.Verify.{
  VerifyOptions, verify, verify_time_bounds, find_signature, verify_server_signature,
  verify_home_domain, verify_home_domain_if, find_key, verify_web_auth_value, verify_source,
  verify_web_auth_domain, verify_sources, verify_operation_sources,
}
use colibri.Sep10.Verify.Spec.{Accepts, verify_iff}
use colibri.Sep10.Sign.{AnySigner, keypair, signer, sign_all, sign, decorate}
use colibri.Sep10.Sign.Keeps.{with_signatures, verify-sign_all}
use colibri.Sep10.Build.{BuildOptions, build, builder_input}
use colibri.Sep10.Build.Reading.{BuildsWhatItIsGiven, manage_data_of}
use colibri.Sep10.Build.RoundTrip.{Requested, build-Requested}
use colibri.Sep10.Jwt.{Jwt, Decoding}
use colibri.Sep10.Client.{
  Client, ClientConfig, new_client, Platform, State, Request, GetChallengeOptions, response, fields,
}
use colibri.Sep10.Client.Flow.{authenticate}
use colibri.Sep10.Client.Flow.Safety.{SendsFrom}

-- The sequence after one: the builder's account starts at -1.
abbrev next_sequence : Text → Text
next_sequence s = if text_eq s (codes "-1") then codes "0" else s

abbrev operation_of : Text × Text × Text → Operation
operation_of (source, name, value) =
    manage_data (record { source = some source; name = name; value = some value })

abbrev made : BuilderInput → Transaction
made i = record {
  source = i.account;
  sequence = some (next_sequence i.sequence);
  time_bounds =
      some (record { min_time = to_decimal i.min_time; max_time = to_decimal i.max_time });
  operations = map operation_of i.operations;
  memo = memo_text i.memo_id;
  signatures = [];
  network_passphrase = i.network_passphrase;
}

abbrev server : Text
server = codes "GSERVER"

abbrev client_account : Text
client_account = codes "GCLIENT"

abbrev home : Text
home = codes "example.com"

abbrev nonce : Bytes
nonce = replicate 64 b'A'

abbrev challenge_operations : List Operation
challenge_operations =
    manage_data
      (record { source = some client_account; name = codes "example.com auth"; value = some nonce })
    ∷ manage_data (record {
      source = some server;
      name = codes "web_auth_domain";
      value = some (codes "auth.example.com");
    })
    ∷ []

-- A signature is the key and then what is signed, which is the source of the transaction.
abbrev signed : Transaction
signed = record {
  source = server;
  sequence = some (codes "0");
  time_bounds = some (record { min_time = codes "100"; max_time = codes "1000" });
  operations = challenge_operations;
  memo = none_memo;
  signatures = record { hint = []; signature = server ++ server } ∷ [];
  network_passphrase = codes "test";
}

abbrev toy_sdk : Sdk
toy_sdk = record {
  from_xdr = λ xdr passphrase. some signed;
  to_xdr = λ t. t.source;
  utf8 = λ b. b;
  utf8_bytes = λ s. s;
  to_base64 = λ b. b ++ replicate 16 b'A';
  hash = λ t. t.source;
  Key = Text;
  from_public_key = λ s. some s;
  key_verify = λ key hash signature. some (text_eq signature (key ++ hash));
  signature_hint = λ key. [];
  Keypair = Text;
  sign_decorated = λ key hash. record { hint = []; signature = key ++ hash };
  accepts_account = λ account. true;
  build_transaction = λ i. some (made i);
}

abbrev read : Challenge
read = record {
  transaction = signed;
  network_passphrase = codes "test";
  server_account = server;
  client_account = client_account;
  home_domain = home;
  nonce = nonce;
  web_auth_domain = some (codes "auth.example.com");
  client_domain = none;
  client_domain_account = none;
  memo = none;
  min_time = some 100000;
  max_time = some 1000000;
  operations =
      record { source_account = client_account; key = codes "example.com auth"; value = nonce }
      ∷ record {
        source_account = server;
        key = codes "web_auth_domain";
        value = codes "auth.example.com";
      }
      ∷ [];
}

runs : Unit {0}
unfolding from_transaction first_operation bounds_of source_of nonce_of memo_of parse_operations
    ends_with text_eq decimal_value date_of_seconds
runs = tt

verifies : Unit {0}
unfolding runs verify verify_time_bounds find_signature verify_server_signature verify_home_domain
    verify_home_domain_if find_key verify_web_auth_value verify_source verify_web_auth_domain
    verify_sources verify_operation_sources
verifies = tt

from_transaction-signed : from_transaction toy_sdk signed (codes "test") ≡ ok read
unfolding runs
from_transaction-signed = refl

is_challenge_transaction_iff_example :
    (is_challenge_transaction signed ≡ true)
    ↔ ((c : Challenge) × (from_transaction toy_sdk signed (codes "test") ≡ ok c))
is_challenge_transaction_iff_example = is_challenge_transaction_iff toy_sdk signed (codes "test")

from_transaction-Reads_example : Reads toy_sdk signed read
from_transaction-Reads_example =
    from_transaction-Reads toy_sdk signed (codes "test") read from_transaction-signed

-- Four seconds after the challenge ended, which the tolerance still allows.
abbrev options : VerifyOptions
options = record {
  home_domain = some home;
  web_auth_domain = some (codes "auth.example.com");
  allow_expired = none;
  now = none;
  time_tolerance = none;
  skip_time_validation = none;
}

verify-read : verify toy_sdk 1004000 read server options ≡ ok tt
unfolding verifies
verify-read = refl

verify_iff_example :
    (verify toy_sdk 1004000 read server options ≡ ok tt)
    ↔ Accepts toy_sdk 1004000 read server options
verify_iff_example = verify_iff toy_sdk 1004000 read server options

abbrev signers : List (AnySigner toy_sdk)
signers = keypair client_account ∷ signer (codes "GDOMAIN") (λ hash. some hash) ∷ []

abbrev added : List DecoratedSignature
added =
    record { hint = []; signature = client_account ++ server }
    ∷ record { hint = []; signature = server }
    ∷ []

verify-sign_all_example :
    (verify toy_sdk 1004000 (with_signatures read added) server options ≡ ok tt)
    × ((new : List DecoratedSignature) × (with_signatures read added ≡ with_signatures read new)
        × (length new ≡ 2))
unfolding verifies sign_all sign decorate
verify-sign_all_example =
    verify-sign_all toy_sdk (λ t signatures. refl) 1004000 read (with_signatures read added) server
      options signers refl refl
