-- ===== src/Sep10/Build/Reading.antt =====
-- What the builder of the SDK makes of the operations that `build` of sep10/src/challenge/challenge.ts
-- adds, and the domains that are read back from them.
use colibri.Common.{
  drop-append, length-append, text_eq_refl, text_eq_iff, Bool-cases, inl, inr, ◌-◌, ℕ, ◌≡◌, refl,
  ap, true, false, Option, none, some, List, ◌∷◌, ◌++◌, map, Text, codes, text_eq, length,
  to_decimal, arith,
}
use colibri.Sep10.Transaction.{
  Bytes, Operation, manage_data, BuilderInput, Transaction, Sdk, id, none_memo,
}
use colibri.Sep10.Challenge.{auth_key_suffix, web_auth_domain_key, client_domain_key, ends_with}
use colibri.Sep10.Challenge.Shape.{decode, last_named, text_of, source_in_or}
use colibri.Sep10.Build.{web_auth_operation, client_domain_operation}

abbrev pub manage_data_of : Sdk → Text × Text × Text → Operation
manage_data_of sdk (source, name, value) =
    manage_data (record { source = some source; name = name; value = some (sdk.utf8_bytes value) })

-- What the SDK documents of the builder and of the two encodings: the transaction is of the account, at
-- the sequence after its own, with the bounds, the operations and the memo that were added; a value
-- that is a text is its UTF-8 bytes, and the base64 of 48 bytes has 64 characters.
pub record BuildsWhatItIsGiven (sdk : Sdk) : Type 0 where
  pub source :
      (i : BuilderInput) (t : Transaction) → sdk.build_transaction i ≡ some t → t.source ≡ i.account
  pub sequence :
      (i : BuilderInput) (t : Transaction)
      → sdk.build_transaction i ≡ some t
      → i.sequence ≡ codes "-1"
      → t.sequence ≡ some (codes "0")
  pub bounds :
      (i : BuilderInput) (t : Transaction)
      → sdk.build_transaction i ≡ some t
      → t.time_bounds
        ≡ some (record { min_time = to_decimal i.min_time; max_time = to_decimal i.max_time })
  pub operations :
      (i : BuilderInput) (t : Transaction)
      → sdk.build_transaction i ≡ some t
      → t.operations ≡ map (manage_data_of sdk) i.operations
  pub memo :
      (i : BuilderInput) (t : Transaction) (n : ℕ)
      → sdk.build_transaction i ≡ some t
      → i.memo_id ≡ some (to_decimal n)
      → t.memo ≡ id (to_decimal n)
  pub no_memo :
      (i : BuilderInput) (t : Transaction)
      → sdk.build_transaction i ≡ some t
      → i.memo_id ≡ none
      → t.memo ≡ none_memo
  pub utf8-utf8_bytes : (s : Text) → sdk.utf8 (sdk.utf8_bytes s) ≡ s
  pub base64_length : (b : Bytes) → length b ≡ 48 → length (sdk.utf8_bytes (sdk.to_base64 b)) ≡ 64

-- The client domain and its account, where both are given.
abbrev pub domain_if : Option Text → Option Text → Option Text
domain_if (some x) (some y) = some x
domain_if _ _ = none

abbrev pub account_if : Option Text → Option Text → Option Text
account_if (some x) (some y) = some y
account_if _ _ = none

-- A key with the suffix is no key of the two further operations.
pub auth_key-ends_with : (home : Text) → ends_with (home ++ auth_key_suffix) auth_key_suffix ≡ true
unfolding ends_with
auth_key-ends_with home =
    rw
      (drop-append home auth_key_suffix (length (home ++ auth_key_suffix) - 5)
        (omega (arith, length-append home auth_key_suffix)))
      (text_eq_refl auth_key_suffix)

auth_key_ne :
    (home key : Text)
    → ends_with key auth_key_suffix ≡ false
    → text_eq (home ++ auth_key_suffix) key ≡ false
auth_key_ne home key h = elim (Bool-cases (text_eq (home ++ auth_key_suffix) key)) [
  | inl same ↦
      let e = (text_eq_iff (home ++ auth_key_suffix) key).0 same in
      let yes = rw e at (auth_key-ends_with home) in ground arith
  | inr other ↦ other
]

module _ (sdk : Sdk) (laws : BuildsWhatItIsGiven sdk) (server client home value : Text) where
  abbrev pub operations_for : Option Text → Option Text → Option Text → List Operation
  operations_for w d a = map (manage_data_of sdk) (
      (client, home ++ auth_key_suffix, value) ∷ web_auth_operation server w
      ++ client_domain_operation d a)

  pub read-web_auth_domain :
      (w d a : Option Text)
      → text_of (decode sdk) (last_named web_auth_domain_key (operations_for w d a)) ≡ w
  unfolding last_named ends_with text_eq
  read-web_auth_domain none none a = rw (auth_key_ne home web_auth_domain_key refl) refl
  read-web_auth_domain none (some x) none = rw (auth_key_ne home web_auth_domain_key refl) refl
  read-web_auth_domain none (some x) (some y) = rw (auth_key_ne home web_auth_domain_key refl) refl
  read-web_auth_domain (some w) none a = ap some (laws.utf8-utf8_bytes w)
  read-web_auth_domain (some w) (some x) none = ap some (laws.utf8-utf8_bytes w)
  read-web_auth_domain (some w) (some x) (some y) = ap some (laws.utf8-utf8_bytes w)

  pub read-client_domain :
      (w d a : Option Text)
      → text_of (decode sdk) (last_named client_domain_key (operations_for w d a)) ≡ domain_if d a
  unfolding last_named ends_with text_eq
  read-client_domain none none a = rw (auth_key_ne home client_domain_key refl) refl
  read-client_domain none (some x) none = rw (auth_key_ne home client_domain_key refl) refl
  read-client_domain none (some x) (some y) = ap some (laws.utf8-utf8_bytes x)
  read-client_domain (some w) none a = rw (auth_key_ne home client_domain_key refl) refl
  read-client_domain (some w) (some x) none = rw (auth_key_ne home client_domain_key refl) refl
  read-client_domain (some w) (some x) (some y) = ap some (laws.utf8-utf8_bytes x)

  pub read-client_domain_account :
      (w d a : Option Text)
      → source_in_or (last_named client_domain_key (operations_for w d a)) none ≡ account_if d a
  unfolding last_named ends_with text_eq
  read-client_domain_account none none a = rw (auth_key_ne home client_domain_key refl) refl
  read-client_domain_account none (some x) none = rw (auth_key_ne home client_domain_key refl) refl
  read-client_domain_account none (some x) (some y) = refl
  read-client_domain_account (some w) none a = rw (auth_key_ne home client_domain_key refl) refl
  read-client_domain_account (some w) (some x) none =
      rw (auth_key_ne home client_domain_key refl) refl
  read-client_domain_account (some w) (some x) (some y) = refl
