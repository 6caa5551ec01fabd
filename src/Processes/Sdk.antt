-- ===== src/Processes/Sdk.antt =====
-- What the transaction processes of core/processes and the pipelines of core/pipelines use of the SDK,
-- which is not part of the repository, over its transactions, operations, memos, Soroban data and builders.
use colibri.Common.{ℕ, Option, none, some, List, Text, ℤ, Result, ok, err}
use colibri.Signing.Envelope.{Envelope}
use colibri.Processes.Send.{Sendable}

-- `Account`: its id and its sequence number.
pub record Account : Type 0 where
  pub account_id : Text
  pub sequence : Text

-- What `Number(fee)` is: NaN, a number that is at most 0, or one above.
pub data FeeNumber : Type 0 where
  not_a_number not_positive positive : FeeNumber

-- The methods of `TransactionBuilder` that change it.
pub data BuilderCall (Op Memo Data : Type 0) : Type 0 where
  set_soroban_data : Data → BuilderCall Op Memo Data
  set_min_account_sequence : Text → BuilderCall Op Memo Data
  set_min_account_sequence_age set_min_account_sequence_ledger_gap : ℕ → BuilderCall Op Memo Data
  set_extra_signers : List Text → BuilderCall Op Memo Data
  set_ledgerbounds set_timebounds : ℕ → ℕ → BuilderCall Op Memo Data
  set_timeout : ℕ → BuilderCall Op Memo Data
  add_memo : Memo → BuilderCall Op Memo Data
  add_operation : Op → BuilderCall Op Memo Data

-- `none` is a throw. `envelope` and `sendable` tell what the type guards find in a transaction.
pub record Sdk (Tx Op Memo Data Builder : Type 0) : Type 0 where
  pub envelope : Tx → Envelope
  pub sendable : Tx → Sendable
  pub fee : Tx → Text
  pub network_passphrase : Tx → Text
  pub parse_int : Text → Option ℤ
  pub fee_number : Text → FeeNumber
  pub from_xdr : Text → Text → Option Tx
  pub new_account : Text → Text → Option Account
  pub new_builder : Account → Text → Text → Option Builder
  pub call : BuilderCall Op Memo Data → Builder → Option Builder
  pub build : Builder → Option Tx
  pub build_fee_bump_transaction : Text → Text → Tx → Text → Option Tx

-- A call that throws becomes the error of its `catch`.
abbrev pub attempt {ℓ κ} : {E : Type ℓ} {A : Type κ} → E → Option A → Result E A
attempt e none = err e
attempt e (some a) = ok a
