-- ===== src/Sep10/Challenge/Shape.antt =====
-- What a challenge holds of the transaction that `fromTransaction` of challenge.ts reads.

use colibri.Common.{
  append-nil, append_assoc, ◌-◌, ◌≡◌, refl, sym, ap, ◌∙◌, Bool, true, false, Option, none, some,
  List, [], ◌∷◌, ◌++◌, ◌&&◌, Text, text_eq, text_eq_iff, if◌then◌else◌, length, take, drop,
  take-drop, arith,
}
use colibri.Sep10.Transaction.{Bytes, ManageData, Operation, manage_data, other, Sdk}
use colibri.Sep10.Challenge.{
  ChallengeOperation, Parsed, challenge_operation, parse_manage_data, parse_operations,
  web_auth_domain_key, client_domain_key, ends_with, bytes_or_empty,
}

-- The operations that are ManageData, in their order, each with its own source or the account.
unfoldable pub manage_operations : Text → List Operation → List ChallengeOperation
manage_operations account [] = []
manage_operations account (other name ∷ ops) = manage_operations account ops
manage_operations account (manage_data op ∷ ops) =
    challenge_operation account op ∷ manage_operations account ops

abbrev pub has_value : Option Bytes → Bool
has_value none = false
has_value (some v) = true

abbrev pub or_else {ℓ} : {A : Type ℓ} → Option A → Option A → Option A
or_else none b = b
or_else (some a) b = some a

-- The last ManageData of that name that has a value.
unfoldable pub last_named : Text → List Operation → Option ManageData
last_named name [] = none
last_named name (other kind ∷ ops) = last_named name ops
last_named name (manage_data op ∷ ops) =
    or_else (last_named name ops)
      (if text_eq op.name name && has_value op.value then some op else none)

abbrev pub text_of {ℓ} : {A : Type ℓ} → (ManageData → A) → Option ManageData → Option A
text_of f none = none
text_of f (some op) = some (f op)

abbrev pub source_in_or : Option ManageData → Option Text → Option Text
source_in_or none account = account
source_in_or (some op) account = op.source

abbrev pub decode : Sdk → ManageData → Text
decode sdk op = sdk.utf8 (bytes_or_empty op.value)

pub or_else-none {ℓ} : {A : Type ℓ} (o : Option A) → or_else o none ≡ o
or_else-none none = refl
or_else-none (some a) = refl

module _ (sdk : Sdk) (account : Text) where
  parse_manage_data-operations :
      (op : ManageData) (p : Parsed)
      → (parse_manage_data sdk account op p).operations
        ≡ p.operations ++ challenge_operation account op ∷ []
  parse_manage_data-operations op p = ground arith

  pub parse-operations :
      (ops : List Operation) (p : Parsed)
      → (parse_operations sdk account ops p).operations
        ≡ p.operations ++ manage_operations account ops
  unfolding parse_operations manage_operations
  parse-operations [] p = sym (append-nil p.operations)
  parse-operations (other kind ∷ ops) p = parse-operations ops p
  parse-operations (manage_data op ∷ ops) p =
      parse-operations ops (parse_manage_data sdk account op p)
      ∙ ap (λ xs. xs ++ manage_operations account ops) (parse_manage_data-operations op p)
      ∙ append_assoc p.operations (challenge_operation account op ∷ [])
          (manage_operations account ops)

  pub parse-web_auth_domain :
      (ops : List Operation) (p : Parsed)
      → (parse_operations sdk account ops p).web_auth_domain
        ≡ or_else (text_of (decode sdk) (last_named web_auth_domain_key ops)) p.web_auth_domain
  unfolding parse_operations last_named
  parse-web_auth_domain [] p = refl
  parse-web_auth_domain (other kind ∷ ops) p = parse-web_auth_domain ops p
  parse-web_auth_domain (manage_data op ∷ ops) p =
      ground (arith, parse-web_auth_domain ops (parse_manage_data sdk account op p))

  pub parse-client_domain :
      (ops : List Operation) (p : Parsed)
      → (parse_operations sdk account ops p).client_domain
        ≡ or_else (text_of (decode sdk) (last_named client_domain_key ops)) p.client_domain
  unfolding parse_operations last_named
  parse-client_domain [] p = refl
  parse-client_domain (other kind ∷ ops) p = parse-client_domain ops p
  parse-client_domain (manage_data op ∷ ops) p =
      ground (arith, parse-client_domain ops (parse_manage_data sdk account op p))

  pub parse-client_domain_account :
      (ops : List Operation) (p : Parsed)
      → (parse_operations sdk account ops p).client_domain_account
        ≡ source_in_or (last_named client_domain_key ops) p.client_domain_account
  unfolding parse_operations last_named
  parse-client_domain_account [] p = refl
  parse-client_domain_account (other kind ∷ ops) p = parse-client_domain_account ops p
  parse-client_domain_account (manage_data op ∷ ops) p =
      ground (arith, parse-client_domain_account ops (parse_manage_data sdk account op p))

-- A text with the suffix is what precedes the suffix, and the suffix.
pub ends_with-splits :
    (s suffix : Text) → ends_with s suffix ≡ true → s ≡ take (length s - length suffix) s ++ suffix
unfolding ends_with
ends_with-splits s suffix h =
    sym (take-drop (length s - length suffix) s)
    ∙ ap (λ t. take (length s - length suffix) s ++ t)
        ((text_eq_iff (drop (length s - length suffix) s) suffix).0 h)
