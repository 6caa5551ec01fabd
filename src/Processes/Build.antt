-- ===== src/Processes/Build.antt =====
-- core/processes/build-transaction/index.ts: guards, the source account, the calls of the builder.
pub mod Calls
pub mod Stated
pub mod Timed
use colibri.Common.{
  ℕ, zero, suc, Bool, true, false, not, ◌&&◌, ◌||◌, Option, none, some, List, [], ◌∷◌, Text,
  is_absent, Result, ok, err, ◌>>=◌, ◌>>◌, assert, if◌then◌else◌,
}
use colibri.Processes.Sdk.{
  Account, FeeNumber, not_a_number, not_positive, positive, BuilderCall, set_soroban_data,
  set_min_account_sequence, set_min_account_sequence_age, set_min_account_sequence_ledger_gap,
  set_extra_signers, set_ledgerbounds, set_timebounds, set_timeout, add_memo, add_operation, Sdk,
  attempt,
}
use mathlib.Core.Option

abbrev pub no_limit : ℕ
no_limit = 0

pub record Bounds : Type 0 where
  pub low : Option ℕ
  pub high : Option ℕ

pub record TransactionPreconditions : Type 0 where
  pub ledger_bounds : Option Bounds
  pub min_account_sequence : Option Text
  pub min_account_sequence_age : Option ℕ
  pub min_account_sequence_ledger_gap : Option ℕ
  pub extra_signers : Option (List Text)
  pub time_bounds : Option Bounds
  pub timeout_seconds : Option ℕ

pub data BuildError : Type 0 where
  invalid_base_fee base_fee_too_low no_operations_provided : BuildError
  rpc_required_to_load_account could_not_load_account : BuildError
  could_not_initialize_account_with_sequence could_not_create_transaction_builder : BuildError
  could_not_set_soroban_data conflicting_time_constraints failed_to_set_preconditions : BuildError
  could_not_build_transaction unexpected_error : BuildError

-- `rpc.getAccount`, where an RPC server is given. Soroban data that is an empty text counts as none.
pub record BuildInput (W Op Memo Data : Type 0) : Type 0 where
  pub operations : List Op
  pub source : Text
  pub base_fee : Text
  pub network_passphrase : Text
  pub soroban_data : Option Data
  pub memo : Option Memo
  pub preconditions : Option TransactionPreconditions
  pub rpc : Option (Text → W → W × Option Account)
  pub sequence : Option Text

-- A number that is missing or 0 is falsy, and so is a text that is missing or empty.
abbrev pub truthy_number : Option ℕ → Option ℕ
truthy_number none = none
truthy_number (some zero) = none
truthy_number (some (suc n)) = some (suc n)

abbrev pub truthy_text : Option Text → Option Text
truthy_text none = none
truthy_text (some []) = none
truthy_text (some (c ∷ s)) = some (c ∷ s)

-- `bound || NO_LIMIT`
abbrev pub or_no_limit : Option ℕ → ℕ
or_no_limit none = no_limit
or_no_limit (some n) = n

abbrev pub is_given {ℓ} : {A : Type ℓ} → Option A → Bool
is_given none = false
is_given (some a) = true

abbrev pub conflicts : TransactionPreconditions → Bool
conflicts p = is_given p.time_bounds && is_given (truthy_number p.timeout_seconds)

abbrev pub is_timeout_not_defined : Option TransactionPreconditions → Bool
is_timeout_not_defined none = true
is_timeout_not_defined (some p) =
    not (is_given p.time_bounds) && not (is_given (truthy_number p.timeout_seconds))

unfoldable pub check_base_fee : FeeNumber → Result BuildError (Unit {0})
check_base_fee not_a_number = err invalid_base_fee
check_base_fee not_positive = err base_fee_too_low
check_base_fee positive = ok tt

unfoldable pub check_operations {ℓ} : {A : Type ℓ} → List A → Result BuildError (Unit {0})
check_operations [] = err no_operations_provided
check_operations (op ∷ ops) = ok tt

unfoldable pub load_account :
    {W : Type 0} → Option (Text → W → W × Option Account) → Text → W → W × Result BuildError Account
load_account none source w = (w, err rpc_required_to_load_account)
load_account (some get_account) source w =
    let (w', account) = get_account source w in (w', attempt could_not_load_account account)

abbrev pub then_call {ℓ κ} : {A : Type ℓ} {B : Type κ} → Option A → (A → Option B) → Option B
then_call none f = none
then_call (some a) f = f a

-- The conditional calls of `appendPreconditions`, in order.
abbrev pub precondition_calls :
    {Op Memo Data : Type 0} → TransactionPreconditions → List (Option (BuilderCall Op Memo Data))
precondition_calls p =
    Option.map set_min_account_sequence (truthy_text p.min_account_sequence)
    ∷ Option.map set_min_account_sequence_age (truthy_number p.min_account_sequence_age)
    ∷ Option.map set_min_account_sequence_ledger_gap
        (truthy_number p.min_account_sequence_ledger_gap)
    ∷ Option.map set_extra_signers p.extra_signers
    ∷ Option.map (λ b. set_ledgerbounds (or_no_limit b.low) (or_no_limit b.high)) p.ledger_bounds
    ∷ Option.map (λ b. set_timebounds (or_no_limit b.low) (or_no_limit b.high)) p.time_bounds
    ∷ Option.map set_timeout (truthy_number p.timeout_seconds)
    ∷ []

module _ {Tx Op Memo Data Builder : Type 0} (sdk : Sdk Tx Op Memo Data Builder) where
  -- A call that is made if its argument is truthy.
  abbrev pub call_if : Option (BuilderCall Op Memo Data) → Builder → Option Builder
  call_if none tx = some tx
  call_if (some c) tx = sdk.call c tx

  -- Such calls one after the other; the first that throws ends them.
  unfoldable pub call_each : List (Option (BuilderCall Op Memo Data)) → Builder → Option Builder
  call_each [] tx = some tx
  call_each (c ∷ cs) tx = then_call (call_if c tx) (call_each cs)

  unfoldable pub append_preconditions : TransactionPreconditions → Builder → Option Builder
  append_preconditions p tx = call_each (precondition_calls p) tx

  unfoldable pub with_preconditions :
      Option TransactionPreconditions → Builder → Result BuildError Builder
  with_preconditions none tx = ok tx
  with_preconditions (some p) tx = do
    assert (not (conflicts p)) conflicting_time_constraints
    attempt failed_to_set_preconditions (append_preconditions p tx)

  unfoldable pub add_operations : List Op → Builder → Result BuildError Builder
  add_operations [] tx = ok tx
  add_operations (op ∷ ops) tx =
      attempt unexpected_error (sdk.call (add_operation op) tx) >>= add_operations ops

  module _ {W : Type 0} where
    -- What follows the loading of the account.
    unfoldable pub build_from : BuildInput W Op Memo Data → Account → Result BuildError Tx
    build_from i account = do
      tx ←
          attempt could_not_create_transaction_builder
            (sdk.new_builder account i.base_fee i.network_passphrase)
      loaded ←
          attempt could_not_set_soroban_data
            (call_if (Option.map set_soroban_data i.soroban_data) tx)
      conditioned ← with_preconditions i.preconditions loaded
      limited ← attempt unexpected_error (
          call_if
            (if is_timeout_not_defined i.preconditions then some (set_timeout no_limit) else none)
            conditioned)
      noted ← attempt unexpected_error (call_if (Option.map add_memo i.memo) limited)
      complete ← add_operations i.operations noted
      attempt could_not_build_transaction (sdk.build complete)

    unfoldable pub source_account :
        BuildInput W Op Memo Data → Option Text → W → W × Result BuildError Account
    source_account i none w = load_account i.rpc i.source w
    source_account i (some s) w =
        (w, attempt could_not_initialize_account_with_sequence (sdk.new_account i.source s))

    unfoldable pub checks : BuildInput W Op Memo Data → Result BuildError (Unit {0})
    checks i = do check_base_fee (sdk.fee_number i.base_fee); check_operations i.operations

    unfoldable pub after_account :
        BuildInput W Op Memo Data → W × Result BuildError Account → W × Result BuildError Tx
    after_account i (w, account) = (w, account >>= build_from i)

    unfoldable pub after_checks :
        BuildInput W Op Memo Data → W → Result BuildError (Unit {0}) → W × Result BuildError Tx
    after_checks i w (err e) = (w, err e)
    after_checks i w (ok _) = after_account i (source_account i (truthy_text i.sequence) w)

    unfoldable pub build_transaction : BuildInput W Op Memo Data → W → W × Result BuildError Tx
    build_transaction i w = after_checks i w (checks i)
