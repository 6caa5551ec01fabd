-- ===== src/Sep10/Tests/Flow.antt =====
-- The small SDK builds a challenge, and a client submits the one that its server sends.
use colibri.Common.{
  ℕ, ◌+◌, ◌≡◌, refl, ap, true, none, some, List, [], ◌∷◌, ◌++◌, Text, codes, text_eq, ok, sym,
  some-injective, length-append, replicate, to_decimal, arith, inr, ◌∙◌,
}
use colibri.Sep10.Transaction.{Transaction}
use colibri.Sep10.Challenge.{Challenge, from_transaction}
use colibri.Sep10.Challenge.Reads.{memo_text}
use colibri.Sep10.Build.{BuildOptions, build, builder_input}
use colibri.Sep10.Build.Reading.{BuildsWhatItIsGiven}
use colibri.Sep10.Build.RoundTrip.{Sound, Requested, build-Requested}
use colibri.Sep10.Client.{
  Client, new_client, Platform, State, GetChallengeOptions, response, fields,
}
use colibri.Sep10.Tests.{toy_sdk, made, server, client_account, home, next_sequence}

laws : BuildsWhatItIsGiven toy_sdk
unfolding text_eq
laws = record {
  source = λ i t h. ap (λ x. x.source) (sym (some-injective h));
  sequence =
      λ i t h e. ap (λ x. x.sequence) (sym (some-injective h)) ∙ ap (λ s. some (next_sequence s)) e;
  bounds = λ i t h. ap (λ x. x.time_bounds) (sym (some-injective h));
  operations = λ i t h. ap (λ x. x.operations) (sym (some-injective h));
  memo = λ i t n h e. ap (λ x. x.memo) (sym (some-injective h)) ∙ ap memo_text e;
  no_memo = λ i t h e. ap (λ x. x.memo) (sym (some-injective h)) ∙ ap memo_text e;
  utf8-utf8_bytes = λ s. refl;
  base64_length = λ b h. omega (arith, length-append b (replicate 16 b'A'));
}

abbrev build_options : BuildOptions
build_options = record {
  server_account = server;
  client_account = client_account;
  home_domain = home;
  network_passphrase = codes "test";
  web_auth_domain = some (codes "auth.example.com");
  client_domain = some (codes "wallet.example.com");
  client_domain_account = some (codes "GDOMAIN");
  memo = some (to_decimal 7);
  timeout = none;
  nonce = none;
}

abbrev random : List ℕ
random = replicate 48 b'B'

abbrev transaction_built : Transaction
transaction_built = made (builder_input toy_sdk 1700000000123 random build_options)

sound : Sound 1700000000123 random build_options
unfolding to_decimal
sound = record { client = refl; nonce = refl; memo = inr (7, refl, refl); times = omega arith }

build-Requested_example :
    (c : Challenge) × (build toy_sdk 1700000000123 random build_options ≡ ok c)
    × (from_transaction toy_sdk transaction_built (codes "test") ≡ ok c)
    × Requested toy_sdk 1700000000123 random build_options c
build-Requested_example =
    build-Requested toy_sdk laws 1700000000123 random build_options sound transaction_built refl
      refl

-- The world is the clock, and a request takes 10 ms.
abbrev platform : Platform ℕ
platform = record {
  Url = Text;
  parse_url = λ s. some s;
  hostname = λ url. url;
  set_param = λ name value url. url ++ (b'&' ∷ name) ++ (b'=' ∷ value);
  href = λ url. url;
  fetch = λ request clock. (
    clock + 10,
    response (record {
      is_ok = true;
      status = 200;
      body = fields (some (codes "AAAA")) (some (codes "h.p.s")) none;
    }),
  );
  clock = λ clock. clock;
  decoding = record {
    atob = λ s. some s;
    parse_claims = λ s. some (record { sub = none; iss = none; exp = some 2000; iat = none });
  };
}

abbrev toy_client : Client
toy_client = new_client (record {
  auth_endpoint = codes "https://auth";
  server_public_key = server;
  home_domain = home;
  network_passphrase = codes "test";
  web_auth_domain = none;
  timeout = none;
  time_tolerance = none;
  skip_time_validation = none;
})

abbrev request_options : GetChallengeOptions
request_options = record {
  account = client_account;
  memo = none;
  client_domain = none;
  time_tolerance = none;
  skip_time_validation = none;
}

abbrev first_state : State ℕ
first_state = record { world = 500000; sent = [] }
