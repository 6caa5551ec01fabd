-- ===== src/Sep10/Guards.antt =====
-- sep10/src/utils: the guards that tell a challenge without building one, and the parsers that return
-- null in place of an error.
pub mod Agree
use colibri.Common.{
  Bool, true, false, Option, none, some, List, [], ◌∷◌, ◌&&◌, not, Text, is_absent, Result, ok, err,
  if◌then◌else◌, ◌==◌, length,
}
use colibri.Sep10.Transaction.{
  Bytes, ManageData, Operation, manage_data, other, Memo, none_memo, id, other_memo, TimeBounds,
  Transaction, Sdk,
}
use colibri.Sep10.Challenge.{
  Challenge, auth_key_suffix, ends_with, starts_with_m, is_zero_text, source_or, from_transaction,
  from_xdr,
}

abbrev has_bounds : Option TimeBounds → Bool
has_bounds none = false
has_bounds (some bounds) = true

abbrev is_nonce : Option Bytes → Bool
is_nonce none = false
is_nonce (some v) = length v == 64

abbrev pub is_none_memo : Memo → Bool
is_none_memo none_memo = true
is_none_memo _ = false

abbrev pub is_id_memo : Memo → Bool
is_id_memo (id value) = true
is_id_memo _ = false

unfoldable pub first_is_challenge : Memo → List Operation → Bool
first_is_challenge memo [] = false
first_is_challenge memo (other name ∷ ops) = false
first_is_challenge memo (manage_data op ∷ ops) =
    if is_absent op.source
    then false
    else if not (ends_with op.name auth_key_suffix)
    then false
    else if not (is_nonce op.value)
    then false
    else if not (is_none_memo memo) && not (is_id_memo memo)
    then false
    else if is_id_memo memo && starts_with_m (source_or [] op.source)
    then false
    else true

unfoldable pub is_challenge_transaction : Transaction → Bool
unfolding first_is_challenge
is_challenge_transaction t =
    if not (is_zero_text t.sequence)
    then false
    else if not (has_bounds t.time_bounds)
    then false
    else first_is_challenge t.memo t.operations

-- `try { … } catch { return null; }`
abbrev ok_or_null {ℓ κ} : {E : Type ℓ} {A : Type κ} → Result E A → Option A
ok_or_null (ok a) = some a
ok_or_null (err e) = none

unfoldable pub decoded_is_challenge : Option Transaction → Bool
decoded_is_challenge none = false
decoded_is_challenge (some t) = is_challenge_transaction t

module _ (sdk : Sdk) where
  unfoldable pub is_challenge_xdr : Text → Text → Bool
  unfolding decoded_is_challenge
  is_challenge_xdr xdr passphrase = decoded_is_challenge (sdk.from_xdr xdr passphrase)

  unfoldable pub parse_challenge_transaction : Transaction → Text → Option Challenge
  parse_challenge_transaction t passphrase = ok_or_null (from_transaction sdk t passphrase)

  unfoldable pub parse_challenge_xdr : Text → Text → Option Challenge
  parse_challenge_xdr xdr passphrase = ok_or_null (from_xdr sdk xdr passphrase)
