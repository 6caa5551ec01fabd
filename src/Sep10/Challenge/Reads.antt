-- ===== src/Sep10/Challenge/Reads.antt =====
-- A challenge and the transaction that `fromTransaction` of challenge.ts made it from.
use colibri.Common.{
  ◌≡◌, refl, ap, ◌∙◌, Bool, true, false, Option, none, some, List, ◌∷◌, ◌++◌, [], Text, codes, ok,
  assert, bind-eq-ok, ok-injective, subst, length, text_eq_iff, arith,
}
use colibri.Sep10.Transaction.{
  Bytes, ManageData, Operation, manage_data, other, Transaction, Sdk, TimeBounds, Memo, none_memo,
  id,
}
use colibri.Sep10.Challenge.{
  Challenge, ChallengeError, new_challenge, invalid_sequence, invalid_home_domain, nothing_parsed,
  parse_operations, first_operation, bounds_of, source_of, nonce_of, memo_of, from_transaction,
  auth_key_suffix, web_auth_domain_key, client_domain_key, ends_with, date_of_seconds, is_zero_text,
  starts_with_m,
}
use colibri.Sep10.Challenge.Shape.{
  manage_operations, last_named, text_of, decode, source_in_or, ends_with-splits, or_else-none,
  parse-operations, parse-web_auth_domain, parse-client_domain, parse-client_domain_account,
}

abbrev pub memo_text : Option Text → Memo
memo_text none = none_memo
memo_text (some value) = id value

-- The first operation is the client's, and holds the home domain and the nonce.
pub record Authenticates (c : Challenge) (first : ManageData) : Type 0 where
  pub key : first.name ≡ c.home_domain ++ auth_key_suffix
  pub client : first.source ≡ some c.client_account
  pub nonce : first.value ≡ some c.nonce
  pub nonce_length : length c.nonce ≡ 64

pub record Reads (sdk : Sdk) (t : Transaction) (c : Challenge) : Type 0 where
  pub transaction : c.transaction ≡ t
  pub sequence : t.sequence ≡ some (codes "0")
  pub bounds :
      (b : TimeBounds) × (t.time_bounds ≡ some b)
      × (c.min_time ≡ date_of_seconds b.min_time)
      × (c.max_time ≡ date_of_seconds b.max_time)
  pub first :
      (op : ManageData) × (rest : List Operation) × (t.operations ≡ manage_data op ∷ rest)
      × Authenticates c op
  pub server : c.server_account ≡ t.source
  pub operations : c.operations ≡ manage_operations t.source t.operations
  pub web_auth_domain :
      c.web_auth_domain ≡ text_of (decode sdk) (last_named web_auth_domain_key t.operations)
  pub client_domain :
      c.client_domain ≡ text_of (decode sdk) (last_named client_domain_key t.operations)
  pub client_domain_account :
      c.client_domain_account ≡ source_in_or (last_named client_domain_key t.operations) none
  pub memo : t.memo ≡ memo_text c.memo
  pub no_muxed_memo : starts_with_m c.client_account ≡ true → c.memo ≡ none

assert-eq-ok : (b : Bool) (e : ChallengeError) {u : Unit {0}} → assert b e ≡ ok u → b ≡ true
assert-eq-ok true e h = refl
assert-eq-ok false e h = ground arith

is_zero_text-inv : (s : Option Text) → is_zero_text s ≡ true → s ≡ some (codes "0")
is_zero_text-inv none h = ground arith
is_zero_text-inv (some s) h = ap some ((text_eq_iff s (codes "0")).0 h)

bounds_of-eq-ok : (o : Option TimeBounds) {b : TimeBounds} → bounds_of o ≡ ok b → o ≡ some b
unfolding bounds_of
bounds_of-eq-ok none h = ground arith
bounds_of-eq-ok (some b) h = ground arith

source_of-eq-ok : (o : Option Text) {s : Text} → source_of o ≡ ok s → o ≡ some s
unfolding source_of
source_of-eq-ok none h = ground arith
source_of-eq-ok (some []) h = ground arith
source_of-eq-ok (some (c ∷ s)) h = ground arith

nonce_of-eq-ok : (o : Option Bytes) {v : Bytes} → nonce_of o ≡ ok v → (o ≡ some v) × (length v ≡ 64)
unfolding nonce_of
nonce_of-eq-ok o h = ground arith

memo_of-eq-ok :
    (client : Text) (memo : Memo) {m : Option Text}
    → memo_of client memo ≡ ok m
    → (memo ≡ memo_text m) × (starts_with_m client ≡ true → m ≡ none)
unfolding memo_of
memo_of-eq-ok client memo h = ground arith

first_operation-eq-ok :
    (ops : List Operation) {op : ManageData}
    → first_operation ops ≡ ok op
    → (rest : List Operation) × (ops ≡ manage_data op ∷ rest)
unfolding first_operation
first_operation-eq-ok [] h = ground arith
first_operation-eq-ok (other kind ∷ ops) h = ground arith
first_operation-eq-ok (manage_data op ∷ ops) h = (ops, ground arith)

module _ (sdk : Sdk) (t : Transaction) (p : Text) where
  reads :
      (b : TimeBounds) (first : ManageData) (client : Text) (nonce : Bytes) (memo : Option Text)
      → assert (is_zero_text t.sequence) (invalid_sequence t.sequence) ≡ ok tt
      → bounds_of t.time_bounds ≡ ok b
      → first_operation t.operations ≡ ok first
      → source_of first.source ≡ ok client
      → assert (ends_with first.name auth_key_suffix) (invalid_home_domain first.name none) ≡ ok tt
      → nonce_of first.value ≡ ok nonce
      → memo_of client t.memo ≡ ok memo
      → Reads sdk t (
          new_challenge t p b client first.name nonce memo
            (parse_operations sdk t.source t.operations nothing_parsed))
  reads b first client nonce memo zero bounds start source suffix value memo' = record {
    transaction = refl;
    sequence = is_zero_text-inv t.sequence (assert-eq-ok _ _ zero);
    bounds = (b, bounds_of-eq-ok _ bounds, refl, refl);
    first =
        let (rest, split) = first_operation-eq-ok _ start in
        (
          first,
          rest,
          split,
          record {
            key = ends_with-splits _ _ (assert-eq-ok _ _ suffix);
            client = source_of-eq-ok _ source;
            nonce = (nonce_of-eq-ok _ value).0;
            nonce_length = (nonce_of-eq-ok _ value).1;
          },
        );
    server = refl;
    operations = parse-operations sdk t.source t.operations nothing_parsed;
    web_auth_domain =
        parse-web_auth_domain sdk t.source t.operations nothing_parsed ∙ or_else-none _;
    client_domain = parse-client_domain sdk t.source t.operations nothing_parsed ∙ or_else-none _;
    client_domain_account = parse-client_domain_account sdk t.source t.operations nothing_parsed;
    memo = (memo_of-eq-ok client t.memo memo').0;
    no_muxed_memo = (memo_of-eq-ok client t.memo memo').1;
  }

-- Where `fromTransaction` makes a challenge, the challenge is what SEP-10 reads of the transaction: the
-- sequence is 0, the first operation is a ManageData of the client whose key is the home domain and
-- " auth" and whose value has 64 bytes, the operations are the ManageData ones in their order, the web
-- auth domain and the client domain are those of the last operation of that name with a value, and a
-- memo is an id and not there with a muxed client.
pub from_transaction-Reads :
    (sdk : Sdk) (t : Transaction) (p : Text) (c : Challenge)
    → from_transaction sdk t p ≡ ok c
    → Reads sdk t c
unfolding from_transaction
from_transaction-Reads sdk t p c h =
    let (u, a0, h0) = bind-eq-ok _ _ h in
    let (b, a1, h1) = bind-eq-ok _ _ h0 in
    let (first, a2, h2) = bind-eq-ok _ _ h1 in
    let (client, a3, h3) = bind-eq-ok _ _ h2 in
    let (u', a4, h4) = bind-eq-ok _ _ h3 in
    let (nonce, a5, h5) = bind-eq-ok _ _ h4 in
    let (memo, a6, h6) = bind-eq-ok _ _ h5 in
    subst (Reads sdk t) (ok-injective h6)
      (reads sdk t p b first client nonce memo a0 a1 a2 a3 a4 a5 a6)
