-- ===== src/Sep10/Build/RoundTrip.antt =====
-- `fromTransaction` of sep10/src/challenge/challenge.ts reads back what `build` was asked for.
use colibri.Common.{
  some-injective, ℕ, ◌+◌, ◌*◌, ◌/◌, ◌≤◌, ◌≡◌, refl, sym, ap, ◌∙◌, true, false, Option, none, some,
  List, [], ◌∷◌, ◌++◌, Text, text_eq, ◌⊎◌, inl, inr, is_absent, ok, length, to_decimal, arith,
  decimal_value-to_decimal, ◌-◌, subst, take, take-append, length-append,
}
use colibri.Sep10.Transaction.{Bytes, ManageData, Operation, manage_data, Transaction, Sdk}
use colibri.Sep10.Challenge.{
  Challenge, web_auth_domain_key, client_domain_key, auth_key_suffix, starts_with_m, source_or,
  from_transaction, date_of_seconds,
}
use colibri.Sep10.Challenge.Shape.{decode, last_named, text_of, source_in_or}
use colibri.Sep10.Challenge.Reads.{Reads, Authenticates, from_transaction-Reads, memo_text}
use colibri.Sep10.Guards.{is_none_memo, is_id_memo, is_challenge_transaction, first_is_challenge}
use colibri.Sep10.Guards.Agree.{is_challenge_transaction_iff}
use colibri.Sep10.Verify.{default}
use colibri.Sep10.Build.{
  BuildOptions, given, check_memo, default_timeout, builder_input, build, built,
}
use colibri.Sep10.Build.Reading.{
  BuildsWhatItIsGiven, domain_if, account_if, auth_key-ends_with, read-web_auth_domain,
  read-client_domain, read-client_domain_account,
}

-- A memo is missing, or the decimals of a number and not with a muxed client.
abbrev pub IsMemo : Text → Option Text → Type 0
IsMemo client memo =
    (memo ≡ none) ⊎ ((n : ℕ) × (memo ≡ some (to_decimal n)) × (starts_with_m client ≡ false))

-- The challenge holds the options; those of the client domain count where both are given.
pub record Requested (sdk : Sdk) (clock : ℕ) (random : Bytes) (o : BuildOptions) (c : Challenge)
    : Type 0 where
  pub server_account : c.server_account ≡ o.server_account
  pub client_account : c.client_account ≡ o.client_account
  pub home_domain : c.home_domain ≡ o.home_domain
  pub nonce : c.nonce ≡ sdk.utf8_bytes (sdk.to_base64 (default random o.nonce))
  pub web_auth_domain : c.web_auth_domain ≡ given o.web_auth_domain
  pub client_domain :
      c.client_domain ≡ domain_if (given o.client_domain) (given o.client_domain_account)
  pub client_domain_account :
      c.client_domain_account ≡ account_if (given o.client_domain) (given o.client_domain_account)
  pub memo : c.memo ≡ given o.memo
  pub min_time : c.min_time ≡ some (clock / 1000 * 1000)
  pub max_time : c.max_time ≡ some ((clock / 1000 + default default_timeout o.timeout) * 1000)

date_of_seconds-to_decimal :
    (n : ℕ) → n * 1000 ≤ 8640000000000000 → date_of_seconds (to_decimal n) ≡ some (n * 1000)
unfolding date_of_seconds
date_of_seconds-to_decimal n h = rw (decimal_value-to_decimal n) (ground arith)

head-injective :
    {a b : ManageData} {xs ys : List Operation} → manage_data a ∷ xs ≡ manage_data b ∷ ys → a ≡ b
head-injective h = cc

memo_text-injective : (a b : Option Text) → memo_text a ≡ memo_text b → a ≡ b
memo_text-injective none none h = refl
memo_text-injective none (some b) h = cc
memo_text-injective (some a) none h = cc
memo_text-injective (some a) (some b) h = cc

source_or-present :
    (account : Text) → is_absent (some account) ≡ false → source_or [] (some account) ≡ account
source_or-present [] h = ground arith
source_or-present (c ∷ s) h = refl

strip_key :
    (home : Text) → take (length (home ++ auth_key_suffix) - 5) (home ++ auth_key_suffix) ≡ home
strip_key home =
    take-append home auth_key_suffix (length (home ++ auth_key_suffix) - 5)
      (omega (arith, length-append home auth_key_suffix))

key-injective : (a b : Text) → a ++ auth_key_suffix ≡ b ++ auth_key_suffix → a ≡ b
key-injective a b h = sym (strip_key a) ∙ ap (λ s. take (length s - 5) s) h ∙ strip_key b

-- What `build` is asked for is sound: a client, a nonce of 48 bytes, a memo as SEP-10 has it, and times
-- that a Date can hold.
pub record Sound (clock : ℕ) (random : Bytes) (o : BuildOptions) : Type 0 where
  pub client : is_absent (some o.client_account) ≡ false
  pub nonce : length (default random o.nonce) ≡ 48
  pub memo : IsMemo o.client_account (given o.memo)
  pub times : (clock / 1000 + default default_timeout o.timeout) * 1000 ≤ 8640000000000000

module _ (sdk : Sdk) (laws : BuildsWhatItIsGiven sdk) (clock : ℕ) (random : Bytes)
    (o : BuildOptions) (sound : Sound clock random o) (t : Transaction)
    (made : sdk.build_transaction (builder_input sdk clock random o) ≡ some t) where
  memo_is : t.memo ≡ memo_text (given o.memo)
  unfolding builder_input
  memo_is = elim sound.memo [
    | inl none_given ↦ laws.no_memo _ t made none_given ∙ ap memo_text (sym none_given)
    | inr (n, some_given, plain) ↦ laws.memo _ t n made some_given ∙ ap memo_text (sym some_given)
  ]

  no_memo_or_plain :
      (is_none_memo t.memo ≡ true)
      ⊎ ((is_none_memo t.memo ≡ false)
          × (is_id_memo t.memo ≡ true)
          × (starts_with_m o.client_account ≡ false))
  no_memo_or_plain = elim sound.memo [
    | inl none_given ↦ inl (rw memo_is (rw none_given refl))
    | inr (n, some_given, plain) ↦
        inr (rw memo_is (rw some_given refl), rw memo_is (rw some_given refl), plain)
  ]

  is_challenge : is_challenge_transaction t ≡ true
  unfolding is_challenge_transaction first_is_challenge builder_input text_eq
  is_challenge =
      rw
        (
          laws.sequence _ t made refl,
          laws.bounds _ t made,
          laws.operations _ t made,
          auth_key-ends_with o.home_domain,
          sound.client,
          laws.base64_length _ sound.nonce,
          source_or-present o.client_account sound.client,
        )
        (ground (arith, no_memo_or_plain))

  check_memo-ok : check_memo o.client_account (given o.memo) ≡ ok tt
  unfolding check_memo
  check_memo-ok = elim sound.memo [
    | inl none_given ↦ rw none_given refl
    | inr (n, some_given, plain) ↦ rw some_given (rw plain refl)
  ]

  first_made : ManageData
  first_made = record {
    source = some o.client_account;
    name = o.home_domain ++ auth_key_suffix;
    value = some (sdk.utf8_bytes (sdk.to_base64 (default random o.nonce)));
  }

  Authenticates-first_made : (c : Challenge) → Reads sdk t c → Authenticates c first_made
  unfolding builder_input first_made
  Authenticates-first_made c r =
      let (op, rest, split, a) = r.first in
      let e : op ≡ first_made = head-injective (sym split ∙ laws.operations _ t made) in
      subst (Authenticates c) e a

  Reads-Requested : (c : Challenge) → Reads sdk t c → Requested sdk clock random o c
  unfolding builder_input first_made
  Reads-Requested c r =
      let first = Authenticates-first_made c r in
      let (b, e, min_time, max_time) = r.bounds in
      let same_bounds = some-injective (sym e ∙ laws.bounds _ t made) in
      let ops = laws.operations _ t made in
      record {
        server_account = r.server ∙ laws.source _ t made;
        client_account = some-injective (sym first.client);
        home_domain = key-injective c.home_domain o.home_domain (sym first.key);
        nonce = some-injective (sym first.nonce);
        web_auth_domain =
            r.web_auth_domain
            ∙ ap (λ x. text_of (decode sdk) (last_named web_auth_domain_key x)) ops
            ∙ read-web_auth_domain sdk laws o.server_account o.client_account o.home_domain _ _ _ _;
        client_domain =
            r.client_domain
            ∙ ap (λ x. text_of (decode sdk) (last_named client_domain_key x)) ops
            ∙ read-client_domain sdk laws o.server_account o.client_account o.home_domain _
                (given o.web_auth_domain) _ _;
        client_domain_account =
            r.client_domain_account
            ∙ ap (λ x. source_in_or (last_named client_domain_key x) none) ops
            ∙ read-client_domain_account sdk laws o.server_account o.client_account o.home_domain _
                (given o.web_auth_domain) _ _;
        memo = memo_text-injective _ _ (sym r.memo ∙ memo_is);
        min_time =
            min_time
            ∙ ap (λ x. date_of_seconds x.min_time) same_bounds
            ∙ date_of_seconds-to_decimal _ (omega (arith, sound.times));
        max_time =
            max_time
            ∙ ap (λ x. date_of_seconds x.max_time) same_bounds
            ∙ date_of_seconds-to_decimal _ sound.times;
      }

-- Where the SDK's builder does what it documents and takes the input, `build` makes a challenge, and
-- reading the transaction back gives each option: the accounts, the home domain, the nonce, the
-- domains, the memo, and bounds from the current second to the timeout.
pub build-Requested :
    (sdk : Sdk) (laws : BuildsWhatItIsGiven sdk) (clock : ℕ) (random : Bytes) (o : BuildOptions)
    (sound : Sound clock random o) (t : Transaction)
    → sdk.accepts_account o.server_account ≡ true
    → sdk.build_transaction (builder_input sdk clock random o) ≡ some t
    → (c : Challenge) × (build sdk clock random o ≡ ok c)
      × (from_transaction sdk t o.network_passphrase ≡ ok c)
      × Requested sdk clock random o c
unfolding build built
build-Requested sdk laws clock random o sound t account made =
    let (c, e) =
      (is_challenge_transaction_iff sdk t o.network_passphrase).0
        (is_challenge sdk laws clock random o sound t made) in
    (
      c,
      rw (account, check_memo-ok sdk laws clock random o sound t made, made) e,
      e,
      Reads-Requested sdk laws clock random o sound t made c
          (from_transaction-Reads sdk t o.network_passphrase c e),
    )
