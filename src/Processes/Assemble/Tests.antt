-- ===== src/Processes/Assemble/Tests.antt =====
-- A run of assembleTransaction on a small SDK, and an instance of the theorem on its outcome.
use colibri.Common.{
  ℕ, zero, suc, true, Option, none, some, List, [], ◌∷◌, Text, codes, decimal_value, ◌==◌,
  if◌then◌else◌, ℤ, pos, negsuc,
}
use colibri.Processes.Sdk.{Account}
use colibri.Processes.Assemble.{AssembleSdk, AssembleInput, BuilderOptions}
use colibri.Processes.Assemble.Assembled.{plus_one}

-- A transaction is its source, its sequence number, the options it was built with and the entries of
-- its operations; a builder is an account, options and the operations so far.
record Tx : Type 0 where
  origin : Text
  number : ℤ
  conditions : BuilderOptions ℕ ℕ
  entries : List (Option (List ℕ))

record Builder : Type 0 where
  account : Account
  options : BuilderOptions ℕ ℕ
  added : List (Option (List ℕ))

abbrev negated : ℕ → ℤ
negated zero = pos 0
negated (suc n) = negsuc n

abbrev read_integer : Text → ℤ
read_integer [] = pos 0
read_integer (c ∷ s) = if c == b'-' then negated (decimal_value s) else pos (decimal_value (c ∷ s))

abbrev opened : Text → Text → Account
opened id sequence = record { account_id = id; sequence = sequence }

abbrev begun : Account → BuilderOptions ℕ ℕ → Builder
begun a o = record { account = a; options = o; added = [] }

abbrev with_operation : Option (List ℕ) → Builder → Builder
with_operation op b = record b { added = op ∷ b.added }

abbrev made : Builder → Tx
made b = record {
  origin = b.account.account_id;
  number = plus_one (read_integer b.account.sequence);
  conditions = b.options;
  entries = b.added;
}

abbrev sdk : AssembleSdk Tx (Option (List ℕ)) ℕ ℕ ℕ ℕ ℕ Builder
sdk = record {
  inner_transaction = λ tx. none;
  is_transaction = λ tx. true;
  operations = λ tx. some tx.entries;
  operation_type = λ op. codes "invokeHostFunction";
  host_function = λ op. 0;
  invoke_host_function = λ f entries. some entries;
  source = λ tx. tx.origin;
  sequence = λ tx. tx.number;
  fee = λ tx. decimal_value tx.conditions.fee;
  memo = λ tx. tx.conditions.memo;
  network_passphrase = λ tx. tx.conditions.network_passphrase;
  time_bounds = λ tx. tx.conditions.timebounds;
  ledger_bounds = λ tx. tx.conditions.ledgerbounds;
  min_account_sequence = λ tx. tx.conditions.min_account_sequence;
  min_account_sequence_age = λ tx. tx.conditions.min_account_sequence_age;
  min_account_sequence_ledger_gap = λ tx. tx.conditions.min_account_sequence_ledger_gap;
  extra_signers = λ tx. tx.conditions.extra_signers;
  new_account = λ id sequence. some (opened id sequence);
  build_data = λ d. some d;
  new_builder = λ a o. some (begun a o);
  add_operation = λ op b. some (with_operation op b);
  build = λ b. some (made b);
}

-- A sequence number above 2^53.
abbrev input : AssembleInput Tx ℕ ℕ
input = record {
  transaction = record {
    origin = codes "GA";
    number = pos 9007199254740995;
    conditions = record {
      fee = codes "100";
      memo = 3;
      network_passphrase = codes "test";
      timebounds = none;
      ledgerbounds = some (1, 9);
      min_account_sequence = none;
      min_account_sequence_age = none;
      min_account_sequence_ledger_gap = none;
      extra_signers = none;
      soroban_data = none;
    };
    entries = none ∷ [];
  };
  auth_entries = some (7 ∷ []);
  soroban_data = some 5;
  resource_fee = 40;
}
