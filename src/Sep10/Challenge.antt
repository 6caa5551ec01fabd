-- ===== src/Sep10/Challenge.antt =====
-- sep10/src/challenge/challenge.ts, `fromTransaction` and `fromXDR`, and the guards and safe parsers of
-- sep10/src/utils.
pub mod Shape
pub mod Reads
use colibri.Common.{
  ℕ, ◌-◌, ◌*◌, Bool, true, false, Option, none, some, List, [], ◌∷◌, ◌++◌, ◌&&◌, not, Text, codes,
  text_eq, is_absent, Result, ok, err, ◌>>=◌, ◌>>◌, assert, rethrow, if◌then◌else◌, ◌==◌, leb,
  length, take, drop, decimal_value,
}
use colibri.Sep10.Transaction.{
  Bytes, ManageData, Operation, manage_data, other, Memo, none_memo, id, other_memo, TimeBounds,
  Transaction, Sdk,
}

-- The errors of challenge/error.ts that the code throws, with their arguments, and `external` for one
-- of the SDK, which leaves the code as it is.
pub data ChallengeError : Type 0 where
  invalid_xdr : Text → ChallengeError
  invalid_sequence : Option Text → ChallengeError
  missing_time_bounds no_operations external : ChallengeError
  invalid_first_operation : Text → ChallengeError
  client_account_mismatch : Text → ChallengeError
  invalid_home_domain : Text → Option Text → ChallengeError
  invalid_nonce : ℕ → ChallengeError
  invalid_memo_type : Text → ChallengeError
  muxed_account_with_memo : Text → Text → ChallengeError
  challenge_expired : Option ℕ → Option ℕ → Option ℕ → ChallengeError
  invalid_server_signature : Text → ChallengeError
  web_auth_domain_mismatch : Text → Option Text → ChallengeError
  web_auth_domain_source : Text → ChallengeError
  invalid_operation_source : Text → Text → Text → ChallengeError

-- A Date by its milliseconds; `none` is an invalid Date.
abbrev pub Date : Type 0
Date = Option ℕ

-- `new Date(parseInt(s, 10) * 1000)`: a Date beyond 8.64e15 ms is invalid.
unfoldable pub date_of_seconds : Text → Date
date_of_seconds s =
    let ms = decimal_value s * 1000 in if leb ms 8640000000000000 then some ms else none

pub record ChallengeOperation : Type 0 where
  pub source_account : Text
  pub key : Text
  pub value : Bytes

pub record Challenge : Type 0 where
  pub transaction : Transaction
  pub network_passphrase : Text
  pub server_account : Text
  pub client_account : Text
  pub home_domain : Text
  pub nonce : Bytes
  pub web_auth_domain : Option Text
  pub client_domain : Option Text
  pub client_domain_account : Option Text
  pub memo : Option Text
  pub min_time : Date
  pub max_time : Date
  pub operations : List ChallengeOperation

abbrev pub auth_key_suffix : Text
auth_key_suffix = codes " auth"

abbrev pub web_auth_domain_key : Text
web_auth_domain_key = codes "web_auth_domain"

abbrev pub client_domain_key : Text
client_domain_key = codes "client_domain"

-- `s.endsWith(suffix)`
unfoldable pub ends_with : Text → Text → Bool
ends_with s suffix = text_eq (drop (length s - length suffix) s) suffix

-- `account.startsWith("M")`
abbrev pub starts_with_m : Text → Bool
starts_with_m [] = false
starts_with_m (c ∷ s) = c == b'M'

-- `sequence !== "0"`, negated.
abbrev pub is_zero_text : Option Text → Bool
is_zero_text none = false
is_zero_text (some s) = text_eq s (codes "0")

abbrev pub length_or_zero : Option Bytes → ℕ
length_or_zero none = 0
length_or_zero (some v) = length v

-- `source || account`
abbrev pub source_or : Text → Option Text → Text
source_or account none = account
source_or account (some []) = account
source_or account (some (c ∷ s)) = c ∷ s

abbrev pub bytes_or_empty : Option Bytes → Bytes
bytes_or_empty none = []
bytes_or_empty (some v) = v

-- The variables of the loop over the operations.
pub record Parsed : Type 0 where
  pub operations : List ChallengeOperation
  pub web_auth_domain : Option Text
  pub client_domain : Option Text
  pub client_domain_account : Option Text

abbrev pub nothing_parsed : Parsed
nothing_parsed = record {
  operations = [];
  web_auth_domain = none;
  client_domain = none;
  client_domain_account = none;
}

abbrev pub challenge_operation : Text → ManageData → ChallengeOperation
challenge_operation account op = record {
  source_account = source_or account op.source;
  key = op.name;
  value = bytes_or_empty op.value;
}

module _ (sdk : Sdk) where
  abbrev read_web_auth_domain : Text → Option Bytes → Parsed → Parsed
  read_web_auth_domain name none p = p
  read_web_auth_domain name (some value) p =
      if text_eq name web_auth_domain_key
      then record p { web_auth_domain = some (sdk.utf8 value) }
      else p

  abbrev read_client_domain : Text → Option Text → Option Bytes → Parsed → Parsed
  read_client_domain name source none p = p
  read_client_domain name source (some value) p =
      if text_eq name client_domain_key
      then record p { client_domain = some (sdk.utf8 value); client_domain_account = source }
      else p

  abbrev pub parse_manage_data : Text → ManageData → Parsed → Parsed
  parse_manage_data account op p = read_client_domain op.name op.source op.value (
      read_web_auth_domain op.name op.value
        (record p { operations = p.operations ++ challenge_operation account op ∷ [] }))

  unfoldable pub parse_operations : Text → List Operation → Parsed → Parsed
  parse_operations account [] p = p
  parse_operations account (other name ∷ ops) p = parse_operations account ops p
  parse_operations account (manage_data op ∷ ops) p =
      parse_operations account ops (parse_manage_data account op p)

-- `transaction.operations[0]`, which has to be a ManageData.
unfoldable pub first_operation : List Operation → Result ChallengeError ManageData
first_operation [] = err no_operations
first_operation (other name ∷ ops) = err (invalid_first_operation name)
first_operation (manage_data op ∷ ops) = ok op

unfoldable pub bounds_of : Option TimeBounds → Result ChallengeError TimeBounds
bounds_of none = err missing_time_bounds
bounds_of (some bounds) = ok bounds

unfoldable pub source_of : Option Text → Result ChallengeError Text
source_of none = err (client_account_mismatch (codes "undefined"))
source_of (some []) = err (client_account_mismatch (codes "undefined"))
source_of (some (c ∷ s)) = ok (c ∷ s)

unfoldable pub nonce_of : Option Bytes → Result ChallengeError Bytes
nonce_of none = err (invalid_nonce 0)
nonce_of (some v) = if length v == 64 then ok v else err (invalid_nonce (length v))

unfoldable pub memo_of : Text → Memo → Result ChallengeError (Option Text)
memo_of client none_memo = ok none
memo_of client (other_memo kind) = err (invalid_memo_type kind)
memo_of client (id value) =
    if starts_with_m client then err (muxed_account_with_memo client value) else ok (some value)

-- The `new SEP10Challenge` at the end, from what the checks before it read.
abbrev pub new_challenge :
    Transaction → Text → TimeBounds → Text → Text → Bytes → Option Text → Parsed → Challenge
new_challenge t passphrase bounds client key nonce memo parsed = record {
  transaction = t;
  network_passphrase = passphrase;
  server_account = t.source;
  client_account = client;
  home_domain = take (length key - length auth_key_suffix) key;
  nonce = nonce;
  web_auth_domain = parsed.web_auth_domain;
  client_domain = parsed.client_domain;
  client_domain_account = parsed.client_domain_account;
  memo = memo;
  min_time = date_of_seconds bounds.min_time;
  max_time = date_of_seconds bounds.max_time;
  operations = parsed.operations;
}

module _ (sdk : Sdk) where
  unfoldable pub from_transaction : Transaction → Text → Result ChallengeError Challenge
  from_transaction t passphrase = do
    assert (is_zero_text t.sequence) (invalid_sequence t.sequence)
    bounds ← bounds_of t.time_bounds
    first ← first_operation t.operations
    client ← source_of first.source
    assert (ends_with first.name auth_key_suffix) (invalid_home_domain first.name none)
    nonce ← nonce_of first.value
    let parsed = parse_operations sdk t.source t.operations nothing_parsed
    memo ← memo_of client t.memo
    ok (new_challenge t passphrase bounds client first.name nonce memo parsed)

  unfoldable pub decoded : Text → Option Transaction → Result ChallengeError Transaction
  decoded xdr none = err (invalid_xdr xdr)
  decoded xdr (some t) = ok t

  unfoldable pub from_xdr : Text → Text → Result ChallengeError Challenge
  unfolding decoded
  from_xdr xdr passphrase = do
    t ← decoded xdr (sdk.from_xdr xdr passphrase)
    from_transaction t passphrase
