-- ===== src/Address.antt =====
-- core/address/muxed-to-base-account/index.ts. The decoding of a muxed account is the SDK's.
use colibri.Common.{Text, Result, ok, err, ◌>>=◌, ◌>>◌, assert, Option, none, some}
use colibri.Strkey.{is_muxed_address}

pub data AddressError : Type 0 where
  invalid_muxed_address failed_to_load_muxed_account failed_to_retrieve_base_account : AddressError

-- `MuxedAccount.fromAddress(address, "1")` and `account.baseAccount().accountId()`; `none` is a
-- throw.
pub record MuxedSdk : Type 1 where
  pub Account : Type 0
  pub from_address : Text → Option Account
  pub account_id : Account → Option Text

abbrev or_throw {ℓ} : {A : Type ℓ} → Option A → AddressError → Result AddressError A
or_throw none e = err e
or_throw (some a) e = ok a

unfoldable pub muxed_address_to_base_account : MuxedSdk → Text → Result AddressError Text
muxed_address_to_base_account sdk muxed_address = do
  assert (is_muxed_address muxed_address) AddressError.invalid_muxed_address
  account ← or_throw (sdk.from_address muxed_address) AddressError.failed_to_load_muxed_account
  or_throw (sdk.account_id account) AddressError.failed_to_retrieve_base_account
