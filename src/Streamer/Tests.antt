-- ===== src/Streamer/Tests.antt =====
-- Small servers, and instances of the theorems.
mod Skipped
use colibri.Common.{
  ℕ, subst, ◌+◌, ◌≤◌, Option, none, some, List, [], ◌∷◌, true, false, ok, err, ◌≡◌, ◌↔◌, refl,
  codes, All, arith,
}
use colibri.Events.Filter.{EventType}
use colibri.Events.Filter.Topics.{values_of}
use colibri.Events.Event.{EventResponse}
use colibri.Streamer.Effect.{StreamerError, streamer, State, Effect, Options, maybe_checkpoint}
use colibri.Streamer.Config.{StreamerOptions, Settings, new_streamer, new_streamer-succeeds_iff}
use colibri.Streamer.Modes.{
  Health, LiveIngestionResult, RpcStreamer, start_live, start_archive, start,
}
use colibri.Streamer.Ledgers.{
  LedgerEntry, LedgerSource, ingest_archive_ledgers, create_ledger_streamer,
}
use colibri.Streamer.Events.{EventWorld, EventSource, ingest_live_events}
use colibri.Streamer.Events.Dedupe.{LiveKeeps, ingest_live_events-fresh}
use colibri.Streamer.Events.Buffer.{DistinctIds, HasBuffer, ingest_live_events-HasBuffer}
use colibri.Streamer.Safety.Range.{OfWorld, KeepsInRange, start-within}
use colibri.Streamer.Safety.Stopped.{start-already_running, start-stops}
use colibri.Streamer.Delivery.{entries, deliver_all, at, Serving, ingest_archive_ledgers-exact}
use colibri.Streamer.Delivery.Handover.{Steady, start-exact}

abbrev some_options : StreamerOptions
some_options = record {
  limit = none;
  wait_ledger_interval_ms = some 1000;
  paging_interval_ms = none;
  archival_interval_ms = none;
  skip_ledger_wait_if_behind = none;
}

-- The world is what the servers were asked for, or what the handler was given, last first.
abbrev entry : ℕ → LedgerEntry
entry n = record { sequence = n; handle = n }

abbrev log_entry : List ℕ → LedgerEntry → List ℕ
log_entry w e = e.sequence ∷ w

abbrev ledgers : LedgerSource (List ℕ)
ledgers = record {
  get_ledgers = λ n st. (st, ok (record { ledgers = entry n ∷ []; latest_ledger = 9 }));
  on_ledger = λ e st. (record st { world = log_entry st.world e }, ok tt);
  wait_archival = λ st. st;
}

abbrev options : Options (List ℕ)
options = record {
  start_ledger = some 3;
  stop_ledger = some 7;
  on_checkpoint = none;
  checkpoint_interval = none;
  on_error = none;
}

abbrev healthy : Effect (List ℕ) Health
healthy st = (st, ok (record { healthy = true; latest_ledger = 9; oldest_ledger = 3 }))

abbrev ledger_streamer : RpcStreamer (List ℕ)
ledger_streamer = create_ledger_streamer 10 ledgers ledgers healthy true false (λ st. st)

serving : Serving entry log_entry 9 ledgers options
unfolding maybe_checkpoint
serving = record {
  more = λ n. [];
  numbered = λ n. refl;
  fetches = λ n w. refl;
  delivers = λ e w. refl;
  waits = λ w. refl;
  checkpoints = λ n w. refl;
}

steady : Steady 9 3 healthy (λ st. st)
steady = record { health = λ w. refl; waits = λ w. refl }

start-exact_example :
    start 10 ledger_streamer options (at [] false)
    ≡ (at (deliver_all log_entry [] (entries entry 3 5)) false, ok tt)
start-exact_example =
    start-exact entry log_entry 9 3 7 ledgers ledgers options healthy (λ st. st) false 10 serving
      serving steady refl (ground arith) 2 2 10 3 [] refl refl (ground arith) refl (ground arith)
      (ground arith)

given : deliver_all log_entry [] (entries entry 3 5) ≡ 7 ∷ 6 ∷ 5 ∷ 4 ∷ 3 ∷ []
unfolding deliver_all entries
given = refl

start-stops_example :
    (((start_live 10 ledger_streamer options (at [] false)).0).is_running ≡ false)
    × (((start_archive ledger_streamer options 3 7 (at [] false)).0).is_running ≡ false)
    × (((start 10 ledger_streamer options (at [] false)).0).is_running ≡ false)
start-stops_example = start-stops ledger_streamer options (at [] false) 10 3 7 refl

-- A streamer that records the last ledger that it is asked for.
abbrev ask_live : ℕ → Option ℕ → Effect (List ℕ) LiveIngestionResult
ask_live n stop st = (
  record st { world = n ∷ st.world },
  ok (record { next_ledger = n + 1; should_wait = false; hit_stop_ledger = false }),
)

abbrev ask_archive : ℕ → ℕ → Options (List ℕ) → Effect (List ℕ) ℕ
ask_archive a b o st = (record st { world = b ∷ st.world }, ok (b + 1))

abbrev recorder : RpcStreamer (List ℕ)
recorder = record {
  get_health = healthy;
  ingest_live = some ask_live;
  ingest_archive = some ask_archive;
  has_archive_rpc = true;
  skip_ledger_wait_if_behind = false;
  wait_for_ledger = λ st. st;
}

abbrev AtMost : ℕ → List ℕ → Type 0
AtMost n = All (λ m. m ≤ n)

recorder-KeepsInRange : KeepsInRange (AtMost 7) recorder options
recorder-KeepsInRange = record {
  handlers = record { checkpoints = λ h e. absurd (cc); errors = λ h e. absurd (cc) };
  health = λ st p. p;
  waiting = λ st p. p;
  live = λ f e n h st p.
      let same : ask_live ≡ f = cc in
      let within : n ≤ 7 = ground arith in
      subst (λ g. OfWorld (AtMost 7) ((g n (some 7) st).0)) same (within, p);
  archive = λ f e a b le h st p.
      let same : ask_archive ≡ f = cc in
      let within : b ≤ 7 = ground arith in
      subst (λ g. OfWorld (AtMost 7) ((g a b options st).0)) same (within, p);
}

start-within_example : AtMost 7 ((start 10 recorder options (at [] false)).0).world
start-within_example =
    start-within (AtMost 7) recorder options recorder-KeepsInRange 10 (at [] false) tt

-- A server of events with one page, which holds an event twice.
abbrev transfer : ℕ → EventResponse
transfer n = record {
  response_type = codes "contract";
  response_contract = none;
  fields = record {
    id = codes "0000530239482499072-0000000000";
    ledger = n;
    ledger_closed_at = codes "1700000000";
    contract_id = none;
    type_of = EventType.contract;
    tx_hash = codes "ab";
    transaction_index = 1;
    operation_index = 1;
    topic = values_of (codes "transfer" ∷ []);
    value = record { base64 = some (codes "AAAA") };
    in_successful_contract_call = true;
  };
}

abbrev event_source : EventSource (List ℕ)
event_source = record {
  get_events = λ request st. (
    st,
    ok (record {
      events = transfer 5 ∷ transfer 5 ∷ transfer 8 ∷ [];
      cursor = none;
      latest_ledger = 9;
    }),
  );
  get_ledgers = λ n st. (st, ok []);
  on_event = λ e st. (record st { world = e.ledger ∷ st.world }, ok tt);
  wait_paging = λ st. st;
  wait_archival = λ st. st;
}

abbrev no_events : State (EventWorld (List ℕ))
no_events = record { world = record { outer = []; recently_checked = [] }; is_running = true }

abbrev GivenAtMost : ℕ → State (EventWorld (List ℕ)) → Type 0
GivenAtMost n st = AtMost n (st.world).outer

event_source-LiveKeeps : LiveKeeps (GivenAtMost 7) event_source (some 7)
event_source-LiveKeeps = record {
  fetch = λ request st p. p;
  wait = λ st p. p;
  deliver = λ e st h fresh p. let within : e.ledger ≤ 7 = ground arith in (within, p);
}

ingest_live_events-fresh_example :
    GivenAtMost 7 ((ingest_live_events 3 event_source 5 (some 7) no_events).0)
ingest_live_events-fresh_example =
    ingest_live_events-fresh (GivenAtMost 7) event_source (some 7) event_source-LiveKeeps 3 5
      no_events tt

ingest_live_events-HasBuffer_example :
    HasBuffer ((ingest_live_events 3 event_source 5 (some 7) no_events).0)
unfolding DistinctIds
ingest_live_events-HasBuffer_example =
    ingest_live_events-HasBuffer event_source (some 7) 3 5 no_events (ground arith, tt)
