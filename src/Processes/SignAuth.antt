-- ===== src/Processes/SignAuth.antt =====
-- core/processes/sign-auth-entries/index.ts: the authorization entries of an invocation are signed by
-- the signers at hand.
pub mod Forms
pub mod Accounted
use colibri.Common.{
  ℕ, ◌+◌, ◌/◌, Bool, true, false, not, ◌&&◌, ◌||◌, Option, none, some, List, [], ◌∷◌, ◌++◌, Text, ℤ,
  pos, negsuc, Result, ok, err, ◌>>=◌, ◌>>◌, if◌then◌else◌, leb, push_some,
}
use colibri.Strkey.{ValidatedName, is_valid_strkey}

pub data AddressType : Type 0 where
  account contract muxed_account claimable_balance liquidity_pool : AddressType

-- The credentials of an entry: those of the source account, or an address with its type, its text
-- (`none` where the SDK throws on it) and whether the signature is an empty vector or void.
pub data Credentials : Type 0 where
  source_account : Credentials
  address : AddressType → Option Text → Bool → Credentials

pub record AuthEntry : Type 0 where
  pub credentials : Credentials
  pub body : Text

-- A signer of core; `none` is a throw.
pub record AuthSigner : Type 0 where
  pub signs_for : Text → Bool
  pub sign_auth_entry : AuthEntry → ℕ → Text → Option AuthEntry

pub data LedgerValidity : Type 0 where
  valid_until_ledger_seq valid_for_seconds valid_for_ledgers : ℤ → LedgerValidity

pub data SignAuthError : Type 0 where
  valid_until_ledger_seq_too_low valid_for_seconds_too_low valid_for_ledgers_too_low :
      ℤ → SignAuthError
  failed_to_fetch_latest_ledger unexpected_error : SignAuthError
  missing_signer : Text → SignAuthError
  failed_to_sign_auth_entry : AuthEntry → SignAuthError

-- `n <= k`, with what `n` is where it is larger.
above : {E : Type 0} → ℕ → E → ℤ → Result E ℕ
above k e (negsuc n) = err e
above k e (pos n) = if leb n k then err e else ok n

abbrev from_latest : Option ℕ → ℕ → Result SignAuthError ℕ
from_latest none ledgers = err failed_to_fetch_latest_ledger
from_latest (some latest) ledgers = ok (latest + ledgers)

-- `getValidUntilLedgerSeq`, from what `getLatestLedger` answers.
unfoldable pub get_valid_until_ledger_seq :
    Option LedgerValidity → Option ℕ → Result SignAuthError ℕ
unfolding above
get_valid_until_ledger_seq none latest = from_latest latest 120
get_valid_until_ledger_seq (some (valid_until_ledger_seq n)) latest =
    above 0 (valid_until_ledger_seq_too_low n) n
get_valid_until_ledger_seq (some (valid_for_seconds n)) latest =
    above 5 (valid_for_seconds_too_low n) n >>= λ seconds. from_latest latest ((seconds + 4) / 5)
get_valid_until_ledger_seq (some (valid_for_ledgers n)) latest =
    above 0 (valid_for_ledgers_too_low n) n >>= λ ledgers. from_latest latest ledgers

abbrev pub is_source : Credentials → Bool
is_source source_account = true
is_source (address kind text empty) = false

abbrev pub is_signature_empty : Credentials → Bool
is_signature_empty source_account = false
is_signature_empty (address kind text empty) = empty

unfoldable pub get_source_credential_auth : List AuthEntry → List AuthEntry
get_source_credential_auth [] = []
get_source_credential_auth (e ∷ auth) =
    let rest = get_source_credential_auth auth in if is_source e.credentials then e ∷ rest else rest

unfoldable pub get_address_credential_auth : List AuthEntry → List AuthEntry
get_address_credential_auth [] = []
get_address_credential_auth (e ∷ auth) =
    let rest = get_address_credential_auth auth in
    if is_source e.credentials then rest else e ∷ rest

-- `separateSignedAndUnsignedAuthEntries`: the signed entries and the others.
unfoldable pub separate : List AuthEntry → List AuthEntry × List AuthEntry
separate [] = ([], [])
separate (e ∷ auth) =
    let (signed, unsigned) = separate auth in
    if is_source e.credentials || is_signature_empty e.credentials
    then (signed, e ∷ unsigned)
    else (e ∷ signed, unsigned)

unfoldable pub find_signer : Text → List AuthSigner → Option AuthSigner
find_signer required [] = none
find_signer required (s ∷ signers) =
    let rest = find_signer required signers in if s.signs_for required then some s else rest

module _ (checksum : ValidatedName → Text → Bool) (signers : List AuthSigner) (passphrase : Text)
    (valid_until : ℕ) (remove_unsigned : Bool) where
  -- `getAddressSignerFromAuthEntry`, whose errors leave as UNEXPECTED_ERROR.
  unfoldable pub required_signer : Option Text → Result SignAuthError Text
  required_signer none = err unexpected_error
  required_signer (some text) =
      if is_valid_strkey checksum ValidatedName.ed25519_public_key text
        || is_valid_strkey checksum ValidatedName.contract_id text
      then ok text
      else err unexpected_error

  abbrev pub signed_by : AuthEntry → Option AuthSigner → Text → Result SignAuthError AuthEntry
  signed_by e none required = err (missing_signer required)
  signed_by e (some s) required = elim (s.sign_auth_entry e valid_until passphrase) [
    | none ↦ err (failed_to_sign_auth_entry e)
    | some signed ↦ ok signed
  ]

  unfoldable pub sign_entry : AuthEntry → Option Text → Result SignAuthError (Option AuthEntry)
  sign_entry e text = required_signer text >>= λ required.
      signed_by e (find_signer required signers) required >>= λ signed. ok (some signed)

  abbrev pub kept_if : AuthEntry → Option AuthEntry
  kept_if e = if remove_unsigned then none else some e

  -- The body of the loop: what it pushes.
  unfoldable pub sign_or_keep : AuthEntry → Credentials → Result SignAuthError (Option AuthEntry)
  sign_or_keep e source_account = err unexpected_error
  sign_or_keep e (address claimable_balance text empty) = ok (kept_if e)
  sign_or_keep e (address liquidity_pool text empty) = ok (kept_if e)
  sign_or_keep e (address muxed_account text empty) = ok (kept_if e)
  sign_or_keep e (address account text empty) = sign_entry e text
  sign_or_keep e (address contract text empty) = sign_entry e text

  unfoldable pub sign_entries : List AuthEntry → Result SignAuthError (List AuthEntry)
  sign_entries [] = ok []
  sign_entries (e ∷ entries) = sign_or_keep e e.credentials >>= λ pushed.
      sign_entries entries >>= λ rest. ok (push_some pushed rest)

unfoldable pub sign_auth_entries :
    (ValidatedName → Text → Bool)
    → List AuthSigner
    → Text
    → Option LedgerValidity
    → Option ℕ
    → Bool
    → List AuthEntry
    → Result SignAuthError (List AuthEntry)
sign_auth_entries checksum signers passphrase validity latest remove_unsigned auth =
    get_valid_until_ledger_seq validity latest >>= λ valid_until.
    let sources = if not remove_unsigned then get_source_credential_auth auth else [] in
    let (signed, unsigned) = separate auth in
    sign_entries checksum signers passphrase valid_until remove_unsigned
      (get_address_credential_auth unsigned)
    >>= λ pushed. ok (sources ++ (signed ++ pushed))
