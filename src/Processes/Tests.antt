-- ===== src/Processes/Tests.antt =====
-- Runs of the processes on a small server and two entries, and instances of the theorems.
use mathlib.Core.List.{Perm}
use colibri.Common.{
  ℕ, ◌+◌, ◌≡◌, refl, true, false, Option, some, List, [], ◌∷◌, Text, codes, text_eq, ok,
  if◌then◌else◌, ltb, pad_start, pos, arith, decimal_value,
}
use colibri.Strkey.{is_valid_strkey}
use colibri.Processes.Send.{
  Sendable, transaction, default_options, pending, success, not_found, Rpc, wait_until_time,
  wait_until, accepted_hash, final_output, get_transaction_recursively, send_transaction,
}
use colibri.Processes.Send.Ends.{EndsInTime, Passes, send_transaction-EndsInTime}
use colibri.Processes.SignAuth.{
  AuthEntry, AuthSigner, source_account, address, account, valid_for_seconds,
  get_valid_until_ledger_seq, get_source_credential_auth, get_address_credential_auth, separate,
  find_signer, required_signer, sign_entry, sign_or_keep, sign_entries, sign_auth_entries,
}
use colibri.Processes.SignAuth.Forms.{Each, Becomes, collect}
use colibri.Processes.SignAuth.Accounted.{sign_auth_entries-Accounted}

-- The world is the clock; the transaction is in a ledger from 2000 ms on.
abbrev server : Rpc ℕ
server = record {
  send_transaction = λ tx now. (now + 5, some (pending, codes "ab"));
  get_transaction = λ hash now. (now + 10, some (if ltb now 2000 then not_found else success 7 99));
  clock = λ now. now;
  wait = λ ms now. now + ms;
}

server-Passes : Passes server
server-Passes = record { get = λ hash w. omega arith; wait = λ ms w. omega arith }

abbrev payment : Sendable
payment = transaction (some (codes "30"))

send_run :
    send_transaction server default_options 200 payment 1000
    ≡ (2035, ok (record { hash = codes "ab"; ledger = 7; created_at = 99 }))
unfolding send_transaction get_transaction_recursively wait_until wait_until_time accepted_hash
    final_output decimal_value
send_run = refl

send_transaction-EndsInTime_example :
    EndsInTime server default_options payment 1005
      (send_transaction server default_options 200 payment 1000)
unfolding decimal_value
send_transaction-EndsInTime_example =
    send_transaction-EndsInTime server server-Passes default_options payment 199 1000 (omega arith)

abbrev alice : Text
alice = b'G' ∷ pad_start 55 b'A' (codes "ALICE")

abbrev of_source : AuthEntry
of_source = record { credentials = source_account; body = codes "source" }

abbrev unsigned : AuthEntry
unsigned = record { credentials = address account (some alice) true; body = codes "call" }

abbrev signed : AuthEntry
signed = record { credentials = address account (some alice) false; body = codes "call" }

abbrev alice_signer : AuthSigner
alice_signer = record {
  signs_for = λ s. text_eq s alice;
  sign_auth_entry = λ e until passphrase. some signed;
}

auth_run :
    sign_auth_entries
      (λ name s. true)
      (alice_signer ∷ [])
      (codes "test")
      (some (valid_for_seconds (pos 12)))
      (some 1000)
      false
      (unsigned ∷ of_source ∷ [])
    ≡ ok (of_source ∷ signed ∷ [])
unfolding sign_auth_entries get_valid_until_ledger_seq get_source_credential_auth
    get_address_credential_auth separate sign_entries sign_or_keep sign_entry required_signer
    find_signer is_valid_strkey text_eq
auth_run = refl

sign_auth_entries-Accounted_example :
    (until : ℕ) × (get_valid_until_ledger_seq (some (valid_for_seconds (pos 12))) (some 1000)
      ≡ ok until)
    × ((forms : List (Option AuthEntry)) × Each
          (λ e.
            Becomes (λ name s. true) (alice_signer ∷ []) (codes "test") until false e e.credentials)
          (unsigned ∷ of_source ∷ [])
          forms
        × Perm (of_source ∷ signed ∷ []) (collect forms))
sign_auth_entries-Accounted_example =
    sign_auth_entries-Accounted (λ name s. true) (alice_signer ∷ []) (codes "test")
      (some (valid_for_seconds (pos 12))) (some 1000) false (unsigned ∷ of_source ∷ [])
      (of_source ∷ signed ∷ []) auth_run
