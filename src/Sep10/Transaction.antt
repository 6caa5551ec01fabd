-- ===== src/Sep10/Transaction.antt =====
-- What sep10/src reads of a transaction of the SDK, and the calls of the SDK and the platform.
use colibri.Common.{ℕ, Bool, Option, List, Text}

-- Bytes of a Buffer.
abbrev pub Bytes : Type 0
Bytes = List ℕ

-- `Operation.ManageData`; the SDK gives a value as a Buffer, which is truthy where it is there.
pub record ManageData : Type 0 where
  pub source : Option Text
  pub name : Text
  pub value : Option Bytes

-- `operation.type` tells the two apart; `other` holds any further type.
pub data Operation : Type 0 where
  manage_data : ManageData → Operation
  other : Text → Operation

-- `memo.type` and `memo.value`.
pub data Memo : Type 0 where
  none_memo : Memo
  id : Text → Memo
  other_memo : Text → Memo

-- Seconds, in decimals.
pub record TimeBounds : Type 0 where
  pub min_time : Text
  pub max_time : Text

pub record DecoratedSignature : Type 0 where
  pub hint : Bytes
  pub signature : Bytes

-- The sequence is missing on a fee-bump transaction, which the code's cast lets through.
pub record Transaction : Type 0 where
  pub source : Text
  pub sequence : Option Text
  pub time_bounds : Option TimeBounds
  pub operations : List Operation
  pub memo : Memo
  pub signatures : List DecoratedSignature
  pub network_passphrase : Text

-- The options and the operations that the builder of the SDK gets.
pub record BuilderInput : Type 0 where
  pub account : Text
  pub sequence : Text
  pub fee : Text
  pub network_passphrase : Text
  pub min_time : ℕ
  pub max_time : ℕ
  pub memo_id : Option Text
  pub operations : List (Text × Text × Text)

-- The calls that the code makes of the SDK and of Buffer; `none` is a throw. `accepts_account` tells
-- whether `new Account` takes the id, `build_transaction` stands for the builder's further calls, where
-- an operation is its source, its name and its value, and `utf8_bytes` is what the SDK makes of a value.
pub record Sdk : Type 1 where
  pub from_xdr : Text → Text → Option Transaction
  pub to_xdr : Transaction → Text
  pub utf8 : Bytes → Text
  pub utf8_bytes : Text → Bytes
  pub to_base64 : Bytes → Text
  pub hash : Transaction → Bytes
  pub Key : Type 0
  pub from_public_key : Text → Option Key
  pub key_verify : Key → Bytes → Bytes → Option Bool
  pub signature_hint : Key → Bytes
  pub Keypair : Type 0
  pub sign_decorated : Keypair → Bytes → DecoratedSignature
  pub accepts_account : Text → Bool
  pub build_transaction : BuilderInput → Option Transaction
