-- ===== src/Processes/Send.antt =====
-- core/processes/send-transaction/index.ts and `getTransactionTimeout` of core/common/helpers: a
-- transaction is sent and its status is polled until it is final or the time is over.
pub mod Ends
use colibri.Common.{
  ℕ, zero, suc, ◌+◌, ◌-◌, ◌*◌, ◌/◌, ◌%◌, Bool, true, false, not, ◌&&◌, ◌||◌, Option, none, some,
  Text, decimal_value, Result, ok, err, ◌>>=◌, ◌>>◌, if◌then◌else◌, ltb, leb, ◌==◌,
}

-- What the code tells of a transaction: the maximal time of its bounds, in decimals, that of the inner
-- one for a fee bump, or neither class.
pub data Sendable : Type 0 where
  transaction fee_bump : Option Text → Sendable
  unsupported : Sendable

pub record SendOptions : Type 0 where
  pub timeout_in_seconds : ℕ
  pub wait_interval_in_ms : ℕ
  pub use_transaction_timeout_if_available : Bool

abbrev pub default_options : SendOptions
default_options = record {
  timeout_in_seconds = 45;
  wait_interval_in_ms = 500;
  use_transaction_timeout_if_available = true;
}

-- The status of the answer to a submission; `other` is any further text.
pub data SendStatus : Type 0 where
  pending duplicate try_again_later error : SendStatus
  other : Text → SendStatus

-- The answer about a transaction, with the ledger and the time of a success.
pub data GetStatus : Type 0 where
  success : ℕ → ℕ → GetStatus
  failed not_found : GetStatus
  unknown : Text → GetStatus

-- The errors of send-transaction/error.ts. `out_of_fuel` is none of the code: it ends the polling of
-- the model, and nothing catches it.
pub data SendError : Type 0 where
  timeout_too_low wait_interval_too_low fail_to_send_transaction : SendError
  duplicate_transaction try_again error_status : Text → SendError
  unexpected_status : Text → Text → SendError
  failed_to_get_transaction_status : Text → SendError
  transaction_failed transaction_not_found : Text → SendError
  unexpected_error out_of_fuel : SendError

pub record SendOutput : Type 0 where
  pub hash : Text
  pub ledger : ℕ
  pub created_at : ℕ

-- The RPC server, the clock in milliseconds and the wait of `setTimeout`, on a world; `none` is a throw.
pub record Rpc (W : Type 0) : Type 0 where
  pub send_transaction : Sendable → W → W × Option (SendStatus × Text)
  pub get_transaction : Text → W → W × Option GetStatus
  pub clock : W → ℕ
  pub wait : ℕ → W → W

-- `Number(timeBounds?.maxTime || 0)`
abbrev pub max_time_number : Option Text → ℕ
max_time_number none = 0
max_time_number (some s) = decimal_value s

-- `Date.now() + secondsToWait * 1000`, where the seconds are those from the current one to the maximal
-- time, which may be fewer than none; 0 of them are falsy, as is a missing time, and the timeout counts.
unfoldable pub wait_until_time : ℕ → ℕ → ℕ → ℕ
wait_until_time now max_time timeout =
    if max_time == 0 || max_time == now / 1000
    then now + timeout * 1000
    else (now - now / 1000 * 1000) + max_time * 1000

unfoldable pub wait_until : ℕ → SendOptions → Sendable → Result SendError ℕ
wait_until now o (transaction max_time) = ok (
    if o.use_transaction_timeout_if_available
    then wait_until_time now (max_time_number max_time) o.timeout_in_seconds
    else now + o.timeout_in_seconds * 1000)
wait_until now o (fee_bump max_time) = ok (
    if o.use_transaction_timeout_if_available
    then wait_until_time now (max_time_number max_time) o.timeout_in_seconds
    else now + o.timeout_in_seconds * 1000)
wait_until now o unsupported =
    if o.use_transaction_timeout_if_available
    then err unexpected_error
    else ok (now + o.timeout_in_seconds * 1000)

abbrev pub is_final : GetStatus → Bool
is_final not_found = false
is_final _ = true

-- The tests that follow the answer to the submission.
unfoldable pub accepted_hash : SendStatus × Text → Result SendError Text
accepted_hash (pending, hash) = ok hash
accepted_hash (duplicate, hash) = err (duplicate_transaction hash)
accepted_hash (try_again_later, hash) = err (try_again hash)
accepted_hash (error, hash) = err (error_status hash)
accepted_hash (other status, hash) = err (unexpected_status hash status)

-- The tests that follow the polling.
unfoldable pub final_output : Text → GetStatus → Result SendError SendOutput
final_output hash (success ledger created_at) =
    ok (record { hash = hash; ledger = ledger; created_at = created_at })
final_output hash failed = err (transaction_failed hash)
final_output hash not_found = err (transaction_not_found hash)
final_output hash (unknown status) = err (unexpected_status hash status)

module _ {W : Type 0} (rpc : Rpc W) (hash : Text) (until interval : ℕ) where
  -- What follows the answer, where `again` is the recursive call.
  abbrev pub after_get :
      (W → W × Result SendError GetStatus) → W × Option GetStatus → W × Result SendError GetStatus
  after_get again (w, none) = (w, err (failed_to_get_transaction_status hash))
  after_get again (w, some status) =
      if not (leb until (rpc.clock w)) && not (is_final status)
      then again (rpc.wait interval w)
      else (w, ok status)

  -- `getTransactionRecursively`, on fuel.
  unfoldable pub get_transaction_recursively : ℕ → W → W × Result SendError GetStatus
  get_transaction_recursively zero w = (w, err out_of_fuel)
  get_transaction_recursively (suc fuel) w =
      after_get (get_transaction_recursively fuel) (rpc.get_transaction hash w)

module _ {W : Type 0} (rpc : Rpc W) (o : SendOptions) where
  abbrev pub finish : Text → W × Result SendError GetStatus → W × Result SendError SendOutput
  finish hash (w, err e) = (w, err e)
  finish hash (w, ok status) = (w, final_output hash status)

  abbrev pub poll : ℕ → Text → W → Result SendError ℕ → W × Result SendError SendOutput
  poll fuel hash w (err e) = (w, err e)
  poll fuel hash w (ok until) =
      finish hash (get_transaction_recursively rpc hash until o.wait_interval_in_ms fuel w)

  abbrev pub poll_if : ℕ → Sendable → W → Result SendError Text → W × Result SendError SendOutput
  poll_if fuel tx w (err e) = (w, err e)
  poll_if fuel tx w (ok hash) = poll fuel hash w (wait_until (rpc.clock w) o tx)

  abbrev pub after_send :
      ℕ → Sendable → W × Option (SendStatus × Text) → W × Result SendError SendOutput
  after_send fuel tx (w, none) = (w, err fail_to_send_transaction)
  after_send fuel tx (w, some answer) = poll_if fuel tx w (accepted_hash answer)

  unfoldable pub send_transaction : ℕ → Sendable → W → W × Result SendError SendOutput
  send_transaction fuel tx w =
      if ltb o.timeout_in_seconds 1
      then (w, err timeout_too_low)
      else if ltb o.wait_interval_in_ms 100
      then (w, err wait_interval_too_low)
      else after_send fuel tx (rpc.send_transaction tx w)
