-- ===== src/Streamer/Safety/Skipped.antt =====
-- A failing health check at the end of a live round of `start`, in rpc-streamer/src/streamer.ts.
use colibri.Common.{
  ℕ, ◌+◌, ◌≤◌, true, false, Option, some, ok, err, ◌≡◌, refl, ◌∙◌, ap, le→leb, arith,
}
use colibri.Streamer.Effect.{
  external, State, Effect, continue_with, Options, handle_error, recover, attempt, attempt_with,
  next,
}
use colibri.Streamer.Modes.{
  Health, LiveIngestionResult, RpcStreamer, passed, advanced, ingest_round, after_auto,
  live_round_with, choose_round, auto_round,
}
use colibri.Streamer.Delivery.{not_below}

module _ {W : Type 0} (s : RpcStreamer W) (o : Options W) (n e : ℕ) (health : Health)
    (begin checked ingested failed handled : State W)
    (accepts : handle_error o (external e) (n + 1) failed ≡ (handled, ok true))
    (fails : s.get_health ingested ≡ (failed, err (external e)))
    (skips : s.skip_ledger_wait_if_behind ≡ true)
    (below : passed o.stop_ledger (n + 1) ≡ false) where
  after_auto-skips :
      after_auto s o (advanced (n + 1) true) ingested ≡ (handled, ok (next (n + 1 + 1)))
  unfolding attempt recover
  after_auto-skips = rw (below, skips, fails, accepts) refl

  module _ (ingest : ℕ → Option ℕ → Effect W LiveIngestionResult)
      (live : s.ingest_live ≡ some ingest) (checks : s.get_health begin ≡ (checked, ok health))
      (ingests : ingest_round ingest o n checked ≡ (ingested, ok (advanced (n + 1) true))) where
    live_round-skips :
        live_round_with s o n s.ingest_live checked ≡ (handled, ok (next (n + 1 + 1)))
    unfolding attempt
    live_round-skips =
        ap (λ l. live_round_with s o n l checked) live
        ∙ ap (attempt_with next o n (after_auto s o)) ingests
        ∙ after_auto-skips

    -- A round of `start` that ingests a ledger from the live server and moves on to the next one, and
    -- in which the health check before the wait fails: if the error handler accepts the error, the
    -- loop goes on two ledgers further.
    pub failing_health-skips_ledger :
        passed o.stop_ledger n ≡ false
        → health.oldest_ledger + 2 ≤ n
        → n ≤ health.latest_ledger
        → auto_round s o n begin ≡ (handled, ok (next (n + 2)))
    unfolding auto_round
    failing_health-skips_ledger on lo hi =
        let two : n + 1 + 1 ≡ n + 2 = omega arith in
        rw on (
          ap (continue_with (choose_round s o n)) checks
          ∙ rw (le→leb n health.latest_ledger hi, not_below n (health.oldest_ledger + 2) lo)
              live_round-skips
          ∙ ap (λ k. (handled, ok (next k))) two)
