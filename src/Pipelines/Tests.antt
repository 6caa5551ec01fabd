-- ===== src/Pipelines/Tests.antt =====
-- Runs of the pipelines and their processes on a small SDK, and instances of the theorems.
use colibri.Common.{
  ℕ, ◌+◌, ◌≡◌, refl, Bool, true, false, Option, none, some, some-injective, [], ◌∷◌, Text, codes,
  text_eq, ok, err, decimal_value, Result, Bool-cases, inl, inr, text_eq_iff, if◌then◌else◌, ltb,
  ◌==◌, pad_start, pos, sym, ap, ◌∙◌,
}
use colibri.Address.{MuxedSdk}
use colibri.Strkey.{is_valid_strkey}
use colibri.Signing.Threshold.{OperationThreshold}
use colibri.Signing.Envelope.{
  operation_requirements, remove_conflicting_requirements, Envelope, fee_bump, transaction, neither,
  SignatureRequirement, source_to_address, envelope_signing_requirements,
}
use colibri.Processes.Send.{
  Sendable, pending, success, not_found, send_transaction, get_transaction_recursively, wait_until,
  wait_until_time, accepted_hash, final_output,
}
use colibri.Processes.Sdk.{positive, add_operation, set_timeout, Sdk}
use colibri.Processes.Build.{
  TransactionPreconditions, BuildInput, conflicting_time_constraints, build_transaction, checks,
  check_base_fee, check_operations, after_checks, source_account, load_account, after_account,
  build_from, with_preconditions, append_preconditions, call_each, add_operations,
}
use colibri.Processes.Build.Calls.{to_option, time_calls, builder_calls}
use colibri.Processes.Build.Stated.{asks_twice, stated_calls}
use colibri.Processes.Build.Timed.{is_accepted, expected, build_transaction-performs}
use colibri.Processes.SignEnvelope.{
  EnvelopeSigner, SignEnvelopeInput, find_signer, read_signed, sign_as, sign_each, sign_guarded,
  sign_envelope,
}
use colibri.Processes.SignEnvelope.Outcome.{SignsAsItSays, SignOutcome, sign_envelope-SignOutcome}
use colibri.Processes.WrapFeeBump.{check_inner, wrap_fee_bump}
use colibri.Processes.Simulate.{
  Simulation, simulation_failed, simulate_transaction, answered, verified,
}
use colibri.Pipelines.Classic.{
  ClassicTransactionInput, Server, input_to_build, prepare, deliver_signed, run,
}
use colibri.Pipelines.Classic.Signed.{input_to_build-ignores_timeout}
use colibri.Pipelines.FeeBump.{
  FeeBumpPluginConfig, FeeBumpPluginError, check_transaction, fee_bump_pipeline, on_send_input,
}
use colibri.Pipelines.FeeBump.Bumped.{PluginOutcome, on_send_input-PluginOutcome}

abbrev alice : Text
alice = b'G' ∷ pad_start 55 b'A' (codes "ALICE")

-- A transaction is its kind, 1 for a plain one and 2 for a fee bump, and whether Alice has signed it.
record Tx : Type 0 where
  kind : ℕ
  signed : Bool

abbrev envelope_of : ℕ → Envelope
envelope_of kind =
    if kind == 1 then transaction alice [] else if kind == 2 then fee_bump alice else neither

abbrev read : Text → Option Tx
read [] = none
read (kind ∷ rest) = some (record { kind = kind; signed = true })

-- A builder is the number of the calls that were made of it.
abbrev sdk : Sdk Tx ℕ ℕ ℕ ℕ
sdk = record {
  envelope = λ tx. envelope_of tx.kind;
  sendable = λ tx. Sendable.transaction none;
  fee = λ tx. codes "100";
  network_passphrase = λ tx. codes "test";
  parse_int = λ s. some (if text_eq s (codes "200") then pos 200 else pos 100);
  fee_number = λ s. positive;
  from_xdr = λ xdr passphrase. read xdr;
  new_account = λ id sequence. some (record { account_id = id; sequence = sequence });
  new_builder = λ account fee passphrase. some 0;
  call = λ c b. some (b + 1);
  build = λ b. some (record { kind = 1; signed = false });
  build_fee_bump_transaction = λ source fee tx passphrase.
      if text_eq source alice then some (record { kind = 2; signed = false }) else none;
}

abbrev muxed : MuxedSdk
muxed = record { Account = Text; from_address = λ s. some s; account_id = λ s. some alice }

abbrev signer : EnvelopeSigner ℕ Tx
signer = record {
  signs_for = λ a. text_eq a alice;
  sign_transaction = λ tx w. (w + 1, some (tx.kind ∷ []));
}

abbrev Signed : Tx → Text → Type 0
Signed tx a = (tx.signed ≡ true) × (text_eq a alice ≡ true)

abbrev unsigned : Tx → Tx
unsigned tx = record tx { signed = false }

read-signed :
    (tx tx' : Tx) (xdr : Text)
    → ◌≡◌ {A = Option Text} (some (tx.kind ∷ [])) (some xdr)
    → read xdr ≡ some tx'
    → record { kind = tx.kind; signed = true } ≡ tx'
read-signed tx tx' xdr h e = some-injective (ap read (some-injective h) ∙ e)

signer-SignsAsItSays : SignsAsItSays sdk Signed unsigned signer
signer-SignsAsItSays = record {
  signs = λ a xdr tx tx' w says h e.
      (ap (λ (t : Tx). t.signed) (sym (read-signed tx tx' xdr h e)), says);
  keeps = λ xdr tx tx' w b h e there.
      (ap (λ (t : Tx). t.signed) (sym (read-signed tx tx' xdr h e)), there.1);
  same = λ xdr tx tx' w h e. (ap unsigned (sym (read-signed tx tx' xdr h e)), refl);
}

abbrev plain : Tx
plain = record { kind = 1; signed = false }

abbrev low_requirement : SignatureRequirement
low_requirement = record { address = alice; threshold_level = OperationThreshold.low }

abbrev envelope_input : SignEnvelopeInput ℕ Tx
envelope_input = record {
  transaction = plain;
  signature_requirements = low_requirement ∷ [];
  signers = signer ∷ [];
}

signs_once : sign_envelope sdk envelope_input 5 ≡ (6, ok (record { kind = 1; signed = true }))
unfolding sign_envelope sign_guarded sign_each sign_as find_signer read_signed text_eq
signs_once = refl

sign_envelope-SignOutcome_example :
    SignOutcome sdk Signed unsigned plain
      (low_requirement ∷ [])
      (signer ∷ [])
      (sign_envelope sdk envelope_input 5).1
sign_envelope-SignOutcome_example =
    sign_envelope-SignOutcome sdk Signed unsigned envelope_input 5 (signer-SignsAsItSays, tt)

abbrev timed : TransactionPreconditions
timed = record {
  ledger_bounds = some (record { low = none; high = some 9 });
  min_account_sequence = none;
  min_account_sequence_age = some 0;
  min_account_sequence_ledger_gap = none;
  extra_signers = none;
  time_bounds = some (record { low = some 1; high = none });
  timeout_seconds = none;
}

abbrev build_input : BuildInput ℕ ℕ ℕ ℕ
build_input = record {
  operations = 7 ∷ 8 ∷ [];
  source = alice;
  base_fee = codes "100";
  network_passphrase = codes "test";
  soroban_data = none;
  memo = some 3;
  preconditions = some timed;
  rpc = none;
  sequence = some (codes "12");
}

builds_plain : build_transaction sdk build_input 5 ≡ (5, ok plain)
unfolding build_transaction checks check_base_fee check_operations after_checks source_account
    after_account build_from with_preconditions append_preconditions call_each add_operations
builds_plain = refl

refuses_conflict :
    build_transaction sdk
      (record build_input { preconditions = some (record timed { timeout_seconds = some 30 }) })
      5
    ≡ (5, err conflicting_time_constraints)
unfolding build_transaction checks check_base_fee check_operations after_checks source_account
    after_account build_from with_preconditions
refuses_conflict = refl

build_transaction-performs_example :
    (to_option (build_transaction sdk build_input 5).1
      ≡ (if is_accepted sdk build_input then expected sdk build_input 5 else none))
    × (asks_twice (some timed) ≡ false → time_calls (stated_calls build_input) ≡ 1)
build_transaction-performs_example = build_transaction-performs sdk build_input 5

abbrev server : Server ℕ Tx
server = record {
  get_account = λ source w. (w, some (record { account_id = source; sequence = codes "12" }));
  send = λ tx w. (w + 5, some (pending, codes "ab"));
  get_transaction = λ hash w. (w + 10, some (if ltb w 2000 then not_found else success 7 99));
  clock = λ w. w;
  wait = λ ms w. w + ms;
}

abbrev classic_input : ClassicTransactionInput ℕ Tx ℕ
classic_input = record {
  operations = 7 ∷ [];
  config = record { fee = codes "100"; source = alice; timeout = 30; signers = signer ∷ [] };
}

ignores_timeout :
    builder_calls {Memo = ℕ} {Data = ℕ} (input_to_build server (codes "test") classic_input)
    ≡ set_timeout 0 ∷ add_operation 7 ∷ []
ignores_timeout = input_to_build-ignores_timeout server (codes "test") classic_input

abbrev plugin_config : FeeBumpPluginConfig ℕ Tx
plugin_config = record {
  wrapper = record { source = alice; fee = codes "200" };
  signers = signer ∷ [];
}

abbrev plugin : Tx → ℕ → ℕ × Result FeeBumpPluginError Tx
plugin = on_send_input muxed sdk (codes "test") plugin_config

sdk-builds :
    (source fee passphrase : Text) (tx t : Tx)
    → sdk.build_fee_bump_transaction source fee tx passphrase ≡ some t
    → sdk.envelope t ≡ fee_bump source
sdk-builds source fee passphrase tx t h = elim (Bool-cases (text_eq source alice)) [
  | inl same ↦
      ap (λ (x : Tx). envelope_of x.kind) (sym (some-injective (rw same at h)))
      ∙ ap fee_bump (sym ((text_eq_iff source alice).0 same))
  | inr other ↦ absurd (let broken = rw other at h in cc)
]

on_send_input-PluginOutcome_example :
    PluginOutcome muxed sdk (codes "test") plugin_config Signed unsigned plain (plugin plain 5).1
on_send_input-PluginOutcome_example =
    on_send_input-PluginOutcome muxed sdk (codes "test") plugin_config Signed unsigned plain 5
      (signer-SignsAsItSays, tt) sdk-builds

bumps_plain : plugin plain 5 ≡ (6, ok (record { kind = 2; signed = true }))
unfolding on_send_input check_transaction fee_bump_pipeline wrap_fee_bump check_inner text_eq
    envelope_signing_requirements source_to_address is_valid_strkey sign_envelope sign_guarded
    sign_each sign_as find_signer read_signed
bumps_plain = refl

-- The plain transaction is built, signed, wrapped and signed again before it is sent.
runs_pipeline :
    run muxed sdk server (codes "test") plugin 200 classic_input 5
    ≡ (2062, ok (record { hash = codes "ab"; ledger = 7; created_at = 99 }))
unfolding run prepare deliver_signed input_to_build build_transaction checks check_base_fee
    check_operations after_checks source_account load_account after_account build_from
    with_preconditions add_operations envelope_signing_requirements source_to_address
    is_valid_strkey sign_envelope sign_guarded sign_each sign_as find_signer read_signed
    on_send_input check_transaction fee_bump_pipeline wrap_fee_bump check_inner text_eq
    send_transaction get_transaction_recursively wait_until wait_until_time accepted_hash
    final_output decimal_value operation_requirements remove_conflicting_requirements
runs_pipeline = refl

abbrev answers : Simulation ℕ
answers = record {
  is_error = λ a. a == 1;
  is_restore = λ a. a == 2;
  is_success = λ a. a == 3;
  has_result = λ a. true;
}

simulates :
    (simulate_transaction answers (λ (tx : ℕ) (w : ℕ). (w + 1, some tx)) 2 5 ≡ (6, ok 2))
    × (simulate_transaction answers (λ (tx : ℕ) (w : ℕ). (w, some tx)) 1 5
        ≡ (5, err simulation_failed))
unfolding simulate_transaction answered verified
simulates = (refl, refl)
