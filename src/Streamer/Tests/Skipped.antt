-- ===== src/Streamer/Tests/Skipped.antt =====
-- A streamer whose second health check fails.
use colibri.Common.{
  ℕ, ◌+◌, Option, none, some, List, [], ◌∷◌, true, false, ok, err, ◌≡◌, refl, arith,
}
use colibri.Streamer.Effect.{external, Effect, Options, next, handle_error, maybe_checkpoint}
use colibri.Streamer.Modes.{Health, LiveIngestionResult, RpcStreamer, ingest_round, auto_round}
use colibri.Streamer.Safety.Skipped.{failing_health-skips_ledger}
use colibri.Streamer.Delivery.{at}

abbrev health : Health
health = record { healthy = true; latest_ledger = 9; oldest_ledger = 3 }

-- The health of a server that fails once it has been asked for a ledger.
abbrev fails_later : Effect (List ℕ) Health
fails_later st = elim st.world [ [] ↦ (st, ok health) | _ ∷ _ ↦ (st, err (external 1)) ]

abbrev ask_and_wait : ℕ → Option ℕ → Effect (List ℕ) LiveIngestionResult
ask_and_wait n stop st = (
  record st { world = n ∷ st.world },
  ok (record { next_ledger = n + 1; should_wait = true; hit_stop_ledger = false }),
)

abbrev failing : RpcStreamer (List ℕ)
failing = record {
  get_health = fails_later;
  ingest_live = some ask_and_wait;
  ingest_archive = none;
  has_archive_rpc = false;
  skip_ledger_wait_if_behind = true;
  wait_for_ledger = λ st. st;
}

abbrev accepting : Options (List ℕ)
accepting = record {
  start_ledger = some 9;
  stop_ledger = none;
  on_checkpoint = none;
  checkpoint_interval = none;
  on_error = some (λ e n st. (st, ok none));
}

skips_second_ledger : auto_round failing accepting 9 (at [] true) ≡ (at (9 ∷ []) true, ok (next 11))
unfolding handle_error ingest_round maybe_checkpoint
skips_second_ledger =
    failing_health-skips_ledger failing accepting 9 1 health (at [] true) (at [] true)
      (at (9 ∷ []) true) (at (9 ∷ []) true) (at (9 ∷ []) true) refl refl refl refl ask_and_wait refl
      refl refl refl (ground arith) (ground arith)
