-- ===== src/Processes/Send/Ends.antt =====
-- The polling of core/processes/send-transaction/index.ts ends in time.
use colibri.Common.{
  ◌==◌, ◌||◌, Bool, if◌then◌else◌, ℕ, zero, suc, ◌+◌, ◌-◌, ◌*◌, ◌/◌, ◌<◌, max, ◌≤◌, ◌≡◌, refl, sym,
  true, false, ◌⊎◌, inl, inr, Option, none, some, Text, Result, ok, err, ltb, leb, Bool-cases,
  arith, subst, ok-injective,
}
use colibri.Processes.Send.{
  max_time_number, unexpected_error, transaction, fee_bump, unsupported, transaction_not_found,
  wait_until_time, pending, duplicate, try_again_later, error, other, Sendable, SendOptions,
  SendStatus, GetStatus, SendError, SendOutput, Rpc, success, failed, not_found, unknown,
  out_of_fuel, failed_to_get_transaction_status, is_final, after_get, get_transaction_recursively,
  wait_until, accepted_hash, final_output, finish, poll, after_send, send_transaction,
}

-- Time does not run backwards, and a wait lasts at least as long as it says.
pub record Passes {W : Type 0} (rpc : Rpc W) : Type 0 where
  pub get : (hash : Text) (w : W) → rpc.clock w ≤ rpc.clock (rpc.get_transaction hash w).0
  pub wait : (ms : ℕ) (w : W) → rpc.clock w + ms ≤ rpc.clock (rpc.wait ms w)

module _ {W : Type 0} (rpc : Rpc W) (hash : Text) (until interval : ℕ) where
  -- What ends the polling: the server throws, or the answer is final, or the time is over.
  abbrev pub Ended : W × Result SendError GetStatus → Type 0
  Ended (w, err e) = e ≡ failed_to_get_transaction_status hash
  Ended (w, ok status) = (is_final status ≡ true) ⊎ (until ≤ rpc.clock w)

  after_get-Ended :
      (again : W → W × Result SendError GetStatus) (x : W × Option GetStatus)
      → (leb until (rpc.clock x.0) ≡ false → Ended (again (rpc.wait interval x.0)))
      → Ended (after_get rpc hash until interval again x)
  after_get-Ended again (w, none) next = refl
  after_get-Ended again (w, some status) next = elim (Bool-cases (leb until (rpc.clock w))) [
    | inl over ↦ rw over (inr (ground arith))
    | inr early ↦ elim (Bool-cases (is_final status)) [
      | inl final ↦ rw (early, final) (inl final)
      | inr going ↦ rw (early, going) (next early)
    ]
  ]

  -- One poll for each interval that is left, and one more, are enough.
  polling-Ended :
      (passes : Passes rpc) (fuel : ℕ) (w : W)
      → until ≤ rpc.clock w + fuel * interval
      → Ended (get_transaction_recursively rpc hash until interval (suc fuel) w)
  unfolding get_transaction_recursively
  polling-Ended passes zero w enough =
      after_get-Ended (get_transaction_recursively rpc hash until interval zero)
        (rpc.get_transaction hash w)
        (λ early. let later = passes.get hash w in absurd (ground arith))
  polling-Ended passes (suc fuel) w enough =
      after_get-Ended (get_transaction_recursively rpc hash until interval (suc fuel))
        (rpc.get_transaction hash w)
        (λ early.
          polling-Ended passes fuel (rpc.wait interval (rpc.get_transaction hash w).0)
            (omega (arith, passes.get hash w, passes.wait interval (rpc.get_transaction hash w).0)))

-- The maximal time of the transaction in seconds, where it has one.
abbrev pub time_of : Sendable → ℕ
time_of (transaction max_time) = max_time_number max_time
time_of (fee_bump max_time) = max_time_number max_time
time_of unsupported = 0

-- By this time in milliseconds the time to wait is over: the timeout has passed since the sending, and
-- the second of the maximal time of the transaction as well.
abbrev pub latest_end : ℕ → SendOptions → Sendable → ℕ
latest_end now o tx = max (now + o.timeout_in_seconds * 1000) (time_of tx * 1000 + 1000)

-- The timeout has passed since the sending, or the maximal time of the transaction is reached, if the
-- options ask for it and the transaction has one.
abbrev pub IsOver : ℕ → SendOptions → Sendable → ℕ → Type 0
IsOver sent o tx now =
    (sent + o.timeout_in_seconds * 1000 ≤ now)
    ⊎ ((o.use_transaction_timeout_if_available ≡ true)
        × (0 < time_of tx)
        × (time_of tx * 1000 ≤ now))

second : (now : ℕ) → now - now / 1000 * 1000 ≤ 1000
second now = omega arith

wait_until-bounded :
    (now until : ℕ) (o : SendOptions) (tx : Sendable)
    → wait_until now o tx ≡ ok until
    → until ≤ latest_end now o tx
unfolding wait_until wait_until_time
wait_until-bounded now until o (transaction max_time) h = ground (arith, second now, ok-injective h)
wait_until-bounded now until o (fee_bump max_time) h = ground (arith, second now, ok-injective h)
wait_until-bounded now until o unsupported h = ground (arith, h)

deadline-over :
    (asked : Bool) (sent until now timeout m : ℕ)
    → (if asked then wait_until_time sent m timeout else sent + timeout * 1000) ≡ until
    → until ≤ now
    → (sent + timeout * 1000 ≤ now) ⊎ ((asked ≡ true) × (0 < m) × (m * 1000 ≤ now))
unfolding wait_until_time
deadline-over false sent until now timeout m h over = inl (ground arith)
deadline-over true sent until now timeout m h over =
    elim (Bool-cases (m == 0 || m == sent / 1000)) [
      | inl falsy ↦ inl (ground arith)
      | inr timed ↦ inr (refl, ground arith, ground arith)
    ]

wait_until-IsOver :
    (sent until now : ℕ) (o : SendOptions) (tx : Sendable)
    → wait_until sent o tx ≡ ok until
    → until ≤ now
    → IsOver sent o tx now
unfolding wait_until
wait_until-IsOver sent until now o (transaction max_time) h over =
    deadline-over o.use_transaction_timeout_if_available sent until now o.timeout_in_seconds
      (max_time_number max_time) (ok-injective h) over
wait_until-IsOver sent until now o (fee_bump max_time) h over =
    deadline-over o.use_transaction_timeout_if_available sent until now o.timeout_in_seconds
      (max_time_number max_time) (ok-injective h) over
wait_until-IsOver sent until now o unsupported h over =
    elim (Bool-cases o.use_transaction_timeout_if_available) [
      | inl asked ↦ absurd (let broken = rw asked at h in cc)
      | inr fixed ↦
          let same : sent + o.timeout_in_seconds * 1000 ≡ until = ok-injective (rw fixed at h) in
          inl (omega (arith, same))
    ]

wait_until-err :
    (now : ℕ) (o : SendOptions) (tx : Sendable) {e : SendError}
    → wait_until now o tx ≡ err e
    → e ≡ unexpected_error
unfolding wait_until
wait_until-err now o (transaction max_time) h = cc
wait_until-err now o (fee_bump max_time) h = cc
wait_until-err now o unsupported h = ground arith

module _ {W : Type 0} (rpc : Rpc W) (o : SendOptions) (tx : Sendable) where
  -- The fuel is not used up, and the code gives a transaction up only once its time is over.
  abbrev pub EndsInTime : W → W × Result SendError SendOutput → Type 0
  EndsInTime sent (w, ok output) = Unit
  EndsInTime sent (w, err out_of_fuel) = ⊥
  EndsInTime sent (w, err (transaction_not_found hash)) = IsOver (rpc.clock sent) o tx (rpc.clock w)
  EndsInTime sent (w, err _) = Unit

  finish-EndsInTime :
      (sent : W) (hash : Text) (until : ℕ) (x : W × Result SendError GetStatus)
      → wait_until (rpc.clock sent) o tx ≡ ok until
      → Ended rpc hash until o.wait_interval_in_ms x
      → EndsInTime sent (finish rpc o hash x)
  unfolding final_output
  finish-EndsInTime sent hash until (w, err e) h ended =
      subst (λ x. EndsInTime sent (w, err x)) (sym ended) tt
  finish-EndsInTime sent hash until (w, ok (success ledger at)) h ended = tt
  finish-EndsInTime sent hash until (w, ok failed) h ended = tt
  finish-EndsInTime sent hash until (w, ok (unknown status)) h ended = tt
  finish-EndsInTime sent hash until (w, ok not_found) h (inl final) = ground arith
  finish-EndsInTime sent hash until (w, ok not_found) h (inr over) =
      wait_until-IsOver (rpc.clock sent) until (rpc.clock w) o tx h over

  module _ (passes : Passes rpc) (fuel : ℕ) where
    poll-EndsInTime :
        (sent : W) (hash : Text) (r : Result SendError ℕ)
        → latest_end (rpc.clock sent) o tx ≤ rpc.clock sent + fuel * o.wait_interval_in_ms
        → wait_until (rpc.clock sent) o tx ≡ r
        → EndsInTime sent (poll rpc o (suc fuel) hash sent r)
    poll-EndsInTime sent hash (err e) enough h =
        subst (λ x. EndsInTime sent (sent, err x)) (sym (wait_until-err (rpc.clock sent) o tx h)) tt
    poll-EndsInTime sent hash (ok until) enough h = finish-EndsInTime sent hash until _ h (
        polling-Ended rpc hash until o.wait_interval_in_ms passes fuel sent
          (omega (arith, wait_until-bounded (rpc.clock sent) until o tx h)))

    after_send-EndsInTime :
        (x : W × Option (SendStatus × Text))
        → latest_end (rpc.clock x.0) o tx ≤ rpc.clock x.0 + fuel * o.wait_interval_in_ms
        → EndsInTime x.0 (after_send rpc o (suc fuel) tx x)
    unfolding accepted_hash
    after_send-EndsInTime (w, none) enough = tt
    after_send-EndsInTime (w, some (pending, hash)) enough = poll-EndsInTime w hash _ enough refl
    after_send-EndsInTime (w, some (duplicate, hash)) enough = tt
    after_send-EndsInTime (w, some (try_again_later, hash)) enough = tt
    after_send-EndsInTime (w, some (error, hash)) enough = tt
    after_send-EndsInTime (w, some (other status, hash)) enough = tt

-- Where time does not run backwards, a wait lasts as long as it says and there is fuel for one poll per
-- interval from the answer to the submission until the timeout has passed and the second of the
-- transaction's maximal time as well, sending always ends: with an output or an error of the code, and
-- with TRANSACTION_NOT_FOUND only once the timeout has passed since that answer or, if the options ask
-- for it and the transaction has a maximal time, once that time is reached.
pub send_transaction-EndsInTime :
    {W : Type 0} (rpc : Rpc W) (passes : Passes rpc) (o : SendOptions) (tx : Sendable) (fuel : ℕ)
    (w : W)
    → let sent = (rpc.send_transaction tx w).0 in
      latest_end (rpc.clock sent) o tx ≤ rpc.clock sent + fuel * o.wait_interval_in_ms
      → EndsInTime rpc o tx (rpc.send_transaction tx w).0 (send_transaction rpc o (suc fuel) tx w)
unfolding send_transaction
send_transaction-EndsInTime rpc passes o tx fuel w enough =
    elim (Bool-cases (ltb o.timeout_in_seconds 1)) [
      | inl low ↦ rw low tt
      | inr fine ↦ elim (Bool-cases (ltb o.wait_interval_in_ms 100)) [
        | inl short ↦ rw (fine, short) tt
        | inr long ↦
            rw (fine, long)
              (after_send-EndsInTime rpc o tx passes fuel (rpc.send_transaction tx w) enough)
      ]
    ]
