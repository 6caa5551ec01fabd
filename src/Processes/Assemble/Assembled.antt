-- ===== src/Processes/Assemble/Assembled.antt =====
-- What assembleTransaction gives, where a builder makes the transaction that it is told to make.
use colibri.Common.{
  all_digits, decimal_value, ◌+◌, zero, suc, true, false, Option, none, some, [], ◌∷◌, Text, codes,
  text_eq, ℤ, pos, negsuc, Result, ok, err, ◌≡◌, ◌⊎◌,
}
use colibri.Processes.Sdk.{Account}
use colibri.Processes.Assemble.{
  AssembleSdk, AssembleInput, AssembleError, BuilderOptions, is_smart_contract_operation,
  unexpected_error, not_smart_contract_transaction, unsupported_operation,
  failed_to_build_soroban_data,
}

-- `a + 1n`
abbrev pub plus_one : ℤ → ℤ
plus_one (pos n) = pos (suc n)
plus_one (negsuc zero) = pos 0
plus_one (negsuc (suc n)) = negsuc n

-- What an integer in decimals stands for.
abbrev pub StandsFor : Text → ℤ → Type 0
StandsFor s (pos n) = (all_digits s ≡ true) × (decimal_value s ≡ n)
StandsFor s (negsuc n) =
    (digits : Text) × (s ≡ b'-' ∷ digits)
    × (all_digits digits ≡ true)
    × (decimal_value digits ≡ suc n)

module _ {Tx Op Func Auth Memo DataBuilder Data Builder : Type 0}
    (sdk : AssembleSdk Tx Op Func Auth Memo DataBuilder Data Builder) where
  -- The transaction is what one builder gives that is made of an account with the given text as
  -- sequence number and the given options, and takes one operation.
  abbrev pub BuiltFrom : Text → Text → BuilderOptions Memo Data → Op → Tx → Type 0
  BuiltFrom source sequence o op t =
      (account : Account) × (empty : Builder) × (filled : Builder) × (sdk.new_account source
          sequence
        ≡ some account)
      × (sdk.new_builder account o ≡ some empty)
      × (sdk.add_operation op empty ≡ some filled)
      × (sdk.build filled ≡ some t)

  -- The conditions of a transaction that the options of a builder set.
  abbrev pub HasConditions : BuilderOptions Memo Data → Tx → Type 0
  HasConditions o t =
      (sdk.memo t ≡ o.memo)
      × (sdk.network_passphrase t ≡ o.network_passphrase)
      × (sdk.time_bounds t ≡ o.timebounds)
      × (sdk.ledger_bounds t ≡ o.ledgerbounds)
      × (sdk.min_account_sequence t ≡ o.min_account_sequence)
      × (sdk.min_account_sequence_age t ≡ o.min_account_sequence_age)
      × (sdk.min_account_sequence_ledger_gap t ≡ o.min_account_sequence_ledger_gap)
      × (sdk.extra_signers t ≡ o.extra_signers)

  -- A builder gives a transaction of its account, with the next sequence number, its operation and its
  -- conditions.
  abbrev pub BuildsAsTold : Type 0
  BuildsAsTold =
      (source number : Text) (sequence : ℤ) (o : BuilderOptions Memo Data) (op : Op) (t : Tx)
      → StandsFor number sequence
      → BuiltFrom source number o op t
      → (sdk.source t ≡ source)
        × (sdk.sequence t ≡ plus_one sequence)
        × (sdk.operations t ≡ some (op ∷ []))
        × HasConditions o t

  -- A transaction, no fee bump, with one operation, which is of a smart contract.
  abbrev pub IsSmart : Tx → Type 0
  IsSmart tx =
      (op : Op) × (sdk.inner_transaction tx ≡ none)
      × (sdk.is_transaction tx ≡ true)
      × (sdk.operations tx ≡ some (op ∷ []))
      × (is_smart_contract_operation (sdk.operation_type op) ≡ true)

  -- The conditions of one transaction are those of the other.
  abbrev pub SameConditions : Tx → Tx → Type 0
  SameConditions t tx =
      (sdk.memo t ≡ sdk.memo tx)
      × (sdk.network_passphrase t ≡ sdk.network_passphrase tx)
      × (sdk.time_bounds t ≡ sdk.time_bounds tx)
      × (sdk.ledger_bounds t ≡ sdk.ledger_bounds tx)
      × (sdk.min_account_sequence t ≡ sdk.min_account_sequence tx)
      × (sdk.min_account_sequence_age t ≡ sdk.min_account_sequence_age tx)
      × (sdk.min_account_sequence_ledger_gap t ≡ sdk.min_account_sequence_ledger_gap tx)
      × (sdk.extra_signers t ≡ sdk.extra_signers tx)

  -- The Soroban data of the options are what the given builder of data builds, if there is one.
  abbrev pub HasData : Option DataBuilder → Option Data → Type 0
  HasData given data_built =
      ((given ≡ none) × (data_built ≡ none))
      ⊎ ((b : DataBuilder) × (x : Data) × (given ≡ some b)
          × (sdk.build_data b ≡ some x)
          × (data_built ≡ some x))

  -- The transaction again, with the entries in its operation, built with a fee that counts the
  -- resources and with the Soroban data, and everything else as it was.
  abbrev pub IsAssembled : AssembleInput Tx Auth DataBuilder → Tx → Type 0
  IsAssembled i t =
      (op : Op) × (authorized : Op) × (number : Text) × (o : BuilderOptions Memo Data)
      × (sdk.operations i.transaction ≡ some (op ∷ []))
      × (sdk.operation_type op ≡ codes "invokeHostFunction")
      × (sdk.invoke_host_function (sdk.host_function op) i.auth_entries ≡ some authorized)
      × BuiltFrom (sdk.source i.transaction) number o authorized t
      × StandsFor o.fee (pos (sdk.fee i.transaction + i.resource_fee))
      × HasData i.soroban_data o.soroban_data
      × (sdk.source t ≡ sdk.source i.transaction)
      × (sdk.sequence t ≡ sdk.sequence i.transaction)
      × (sdk.operations t ≡ some (authorized ∷ []))
      × SameConditions t i.transaction

  abbrev pub AssembleOutcome : AssembleInput Tx Auth DataBuilder → Result AssembleError Tx → Type 0
  AssembleOutcome i (ok t) = IsAssembled i t
  AssembleOutcome i (err not_smart_contract_transaction) = IsSmart i.transaction → ⊥
  AssembleOutcome i (err (unsupported_operation name)) =
      (op : Op) × IsSmart i.transaction
      × (sdk.operations i.transaction ≡ some (op ∷ []))
      × (name ≡ sdk.operation_type op)
      × (text_eq name (codes "invokeHostFunction") ≡ false)
  AssembleOutcome i (err unexpected_error) =
      (sdk.operations i.transaction ≡ none)
      ⊎ ((op : Op) × IsSmart i.transaction
          × (sdk.operations i.transaction ≡ some (op ∷ []))
          × ((sdk.invoke_host_function (sdk.host_function op) i.auth_entries ≡ none)
              ⊎ ((number : Text) × (before : ℤ) × StandsFor number before
                  × (plus_one before ≡ sdk.sequence i.transaction)
                  × (sdk.new_account (sdk.source i.transaction) number ≡ none))))
  AssembleOutcome i (err failed_to_build_soroban_data) =
      (d : DataBuilder) × (i.soroban_data ≡ some d) × (sdk.build_data d ≡ none)
  AssembleOutcome i (err _) = IsSmart i.transaction
