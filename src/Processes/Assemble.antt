-- ===== src/Processes/Assemble.antt =====
-- core/processes/assemble-transaction/index.ts and the guard that it uses, isSmartContractTransaction
-- (core/common/type-guards/is-smart-contract-transaction.ts). The arguments that the types require are
-- given, so MISSING_ARG is not thrown. The SDK gives a sequence number and a fee as a decimal text; here
-- they are the integers that these texts stand for.
pub mod Assembled
mod Tests
use colibri.Common.{
  ℕ, ◌+◌, zero, suc, Bool, true, false, Option, none, some, List, [], ◌∷◌, Text, codes, text_eq, ℤ,
  pos, negsuc, Result, ok, err, ◌>>=◌, ◌>>◌, assert, to_decimal, ◌||◌, if◌then◌else◌,
}
use colibri.Processes.Sdk.{Account, attempt}

pub data AssembleError : Type 0 where
  unexpected_error not_smart_contract_transaction : AssembleError
  unsupported_operation : Text → AssembleError
  failed_to_assemble_transaction failed_to_build_transaction : AssembleError
  failed_to_build_soroban_data : AssembleError

-- The options of the `TransactionBuilder`.
pub record BuilderOptions (Memo Data : Type 0) : Type 0 where
  pub fee : Text
  pub memo : Memo
  pub network_passphrase : Text
  pub timebounds : Option (Text × Text)
  pub ledgerbounds : Option (ℕ × ℕ)
  pub min_account_sequence : Option Text
  pub min_account_sequence_age : Option ℕ
  pub min_account_sequence_ledger_gap : Option ℕ
  pub extra_signers : Option (List Text)
  pub soroban_data : Option Data

-- What the code uses of the SDK, where `none` is a throw. `inner_transaction` and `is_transaction` are
-- what the type guards find: `none` of the first is what is no fee bump.
pub record AssembleSdk (Tx Op Func Auth Memo DataBuilder Data Builder : Type 0) : Type 0 where
  pub inner_transaction : Tx → Option Tx
  pub is_transaction : Tx → Bool
  pub operations : Tx → Option (List Op)
  pub operation_type : Op → Text
  pub host_function : Op → Func
  pub invoke_host_function : Func → Option (List Auth) → Option Op
  pub source : Tx → Text
  pub sequence : Tx → ℤ
  pub fee : Tx → ℕ
  pub memo : Tx → Memo
  pub network_passphrase : Tx → Text
  pub time_bounds : Tx → Option (Text × Text)
  pub ledger_bounds : Tx → Option (ℕ × ℕ)
  pub min_account_sequence : Tx → Option Text
  pub min_account_sequence_age : Tx → Option ℕ
  pub min_account_sequence_ledger_gap : Tx → Option ℕ
  pub extra_signers : Tx → Option (List Text)
  pub new_account : Text → Text → Option Account
  pub build_data : DataBuilder → Option Data
  pub new_builder : Account → BuilderOptions Memo Data → Option Builder
  pub add_operation : Op → Builder → Option Builder
  pub build : Builder → Option Tx

pub record AssembleInput (Tx Auth DataBuilder : Type 0) : Type 0 where
  pub transaction : Tx
  pub auth_entries : Option (List Auth)
  pub soroban_data : Option DataBuilder
  pub resource_fee : ℕ

-- `a - 1n`
abbrev pub minus_one : ℤ → ℤ
minus_one (pos zero) = negsuc 0
minus_one (pos (suc n)) = pos n
minus_one (negsuc n) = negsuc (suc n)

-- `a.toString()` of a BigInt.
abbrev pub integer_text : ℤ → Text
integer_text (pos n) = to_decimal n
integer_text (negsuc n) = b'-' ∷ to_decimal (suc n)

-- `SMART_CONTRACT_OPERATIONS.includes(name)`
pub is_smart_contract_operation : Text → Bool
is_smart_contract_operation name =
    text_eq name (codes "invokeHostFunction")
    || text_eq name (codes "extendFootprintTtl")
    || text_eq name (codes "restoreFootprint")

module _ {Tx Op Func Auth Memo DataBuilder Data Builder : Type 0}
    (sdk : AssembleSdk Tx Op Func Auth Memo DataBuilder Data Builder) where
  -- The tests of the list of operations.
  abbrev pub is_single_contract_operation : List Op → Bool
  is_single_contract_operation (op ∷ []) = is_smart_contract_operation (sdk.operation_type op)
  is_single_contract_operation _ = false

  abbrev pub of_operations : Option (List Op) → Option Bool
  of_operations none = none
  of_operations (some ops) = some (is_single_contract_operation ops)

  -- What follows the choice of the transaction that is tested.
  abbrev pub is_smart_contract : Tx → Option Bool
  is_smart_contract tx =
      if sdk.is_transaction tx then of_operations (sdk.operations tx) else some false

  -- With the soft check, a fee bump is tested by its inner transaction.
  abbrev pub guarded : Bool → Tx → Option Tx → Option Bool
  guarded soft tx none = is_smart_contract tx
  guarded false tx (some inner) = some false
  guarded true tx (some inner) = is_smart_contract inner

  unfoldable pub is_smart_contract_transaction : Bool → Tx → Option Bool
  is_smart_contract_transaction soft_check_feebump tx =
      guarded soft_check_feebump tx (sdk.inner_transaction tx)

  -- `sorobanData?.build()`
  abbrev pub built_data : Option DataBuilder → Result AssembleError (Option Data)
  built_data none = ok none
  built_data (some d) = attempt failed_to_build_soroban_data (sdk.build_data d) >>= λ x. ok (some x)

  abbrev pub builder_options : Tx → ℕ → Option Data → BuilderOptions Memo Data
  builder_options tx resource_fee data_built = record {
    fee = to_decimal (sdk.fee tx + resource_fee);
    memo = sdk.memo tx;
    network_passphrase = sdk.network_passphrase tx;
    timebounds = sdk.time_bounds tx;
    ledgerbounds = sdk.ledger_bounds tx;
    min_account_sequence = sdk.min_account_sequence tx;
    min_account_sequence_age = sdk.min_account_sequence_age tx;
    min_account_sequence_ledger_gap = sdk.min_account_sequence_ledger_gap tx;
    extra_signers = sdk.extra_signers tx;
    soroban_data = data_built;
  }

  -- What follows the type of the operation.
  unfoldable pub assemble_with : AssembleInput Tx Auth DataBuilder → Op → Result AssembleError Tx
  assemble_with i op = do
    authorized ←
        attempt unexpected_error (sdk.invoke_host_function (sdk.host_function op) i.auth_entries)
    source_account ← attempt unexpected_error (
        sdk.new_account (sdk.source i.transaction)
          (integer_text (minus_one (sdk.sequence i.transaction))))
    built_soroban_data ← built_data i.soroban_data
    builder ← attempt failed_to_assemble_transaction (
        sdk.new_builder source_account
          (builder_options i.transaction i.resource_fee built_soroban_data))
    assembled ← attempt failed_to_assemble_transaction (sdk.add_operation authorized builder)
    attempt failed_to_build_transaction (sdk.build assembled)

  -- `getOperationsFromTransaction(transaction)[0]`; without one, reading its type throws.
  unfoldable pub assemble_first :
      AssembleInput Tx Auth DataBuilder → List Op → Result AssembleError Tx
  assemble_first i [] = err unexpected_error
  assemble_first i (op ∷ ops) = do
    assert (text_eq (sdk.operation_type op) (codes "invokeHostFunction"))
        (unsupported_operation (sdk.operation_type op))
    assemble_with i op

  unfoldable pub assemble_transaction : AssembleInput Tx Auth DataBuilder → Result AssembleError Tx
  assemble_transaction i = do
    smart ← attempt unexpected_error (is_smart_contract_transaction false i.transaction)
    assert smart not_smart_contract_transaction
    ops ← attempt unexpected_error (sdk.operations i.transaction)
    assemble_first i ops
