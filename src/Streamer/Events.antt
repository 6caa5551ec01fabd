-- ===== src/Streamer/Events.antt =====
-- rpc-streamer/src/variants/event/index.ts: the events of a ledger, from the pages of a live server or
-- from the metadata of an archive.
pub mod Dedupe
pub mod Buffer
use colibri.Common.{
  ℕ, zero, suc, ◌+◌, Bool, true, false, Option, none, some, List, [], ◌∷◌, ◌++◌, Text, text_eq,
  if◌then◌else◌, ◌==◌, ltb, length, drop, Result, ok, err,
}
use colibri.Events.Filter.{EventFilter, includes_id}
use colibri.Events.Event.{Event, EventResponse, from_event_response, EventError}
use colibri.Events.Parsing.{LedgerCloseMeta, parse_events_from_ledger_close_meta}
use colibri.Streamer.Effect.{
  Thrown, parsing, event, out_of_fuel, State, Effect, pure, throws, continue_with, ◌>>=◌, ◌>>◌,
  Options, maybe_checkpoint, attempt, IngestRound, go_on, returns, while_within,
}
use colibri.Streamer.Modes.{LiveIngestionResult, RpcStreamer, Health, passed}

-- A page of events. The server's filters and limit are part of the call.
pub record EventsResponse : Type 0 where
  pub events : List EventResponse
  pub cursor : Option Text
  pub latest_ledger : ℕ

-- The world of the event streamer: the rest of it, and the list that the live ingestor keeps.
pub record EventWorld (W : Type 0) : Type 0 where
  pub outer : W
  pub recently_checked : List Text

-- A request starts at a ledger or at a cursor.
pub data Request : Type 0 where
  from_ledger : ℕ → Request
  from_cursor : Text → Request

-- The server's calls, the handler of the data and the waits. None of them can reach the list.
pub record EventSource (W : Type 0) : Type 0 where
  pub get_events : Request → Effect W EventsResponse
  pub get_ledgers : ℕ → Effect W (List LedgerCloseMeta)
  pub on_event : Event → Effect W (Unit {0})
  pub wait_paging : State W → State W
  pub wait_archival : State W → State W

-- The buffer after one more id.
unfoldable pub remember : Text → List Text → List Text
remember id ids =
    let added = ids ++ (id ∷ []) in if ltb 25 (length added) then drop 1 added else added

-- A cursor that is missing or empty is falsy.
abbrev pub truthy_cursor : Option Text → Option Text
truthy_cursor none = none
truthy_cursor (some []) = none
truthy_cursor (some (c ∷ cursor)) = some (c ∷ cursor)

module _ {W : Type 0} where
  abbrev pub outer_state : State (EventWorld W) → State W
  outer_state st = record { world = (st.world).outer; is_running = st.is_running }

  abbrev pub with_outer : List Text → State W → State (EventWorld W)
  with_outer ids st = record {
    world = record { outer = st.world; recently_checked = ids };
    is_running = st.is_running;
  }

  abbrev pub lift : {A : Type 0} → Effect W A → Effect (EventWorld W) A
  lift m st = let (st', r) = m (outer_state st) in (with_outer (st.world).recently_checked st', r)

  abbrev pub from_result : {A : Type 0} → Result EventError A → Effect (EventWorld W) A
  from_result (ok a) = pure a
  from_result (err e) = throws (event e)

  abbrev pub remember_id : Text → Effect (EventWorld W) (Unit {0})
  remember_id id st = (with_outer (remember id (st.world).recently_checked) (outer_state st), ok tt)

  -- An event that is not past the stop ledger: skipped if its id is in the list.
  unfoldable pub process_event : EventSource W → Event → Effect (EventWorld W) (Unit {0})
  unfolding remember includes_id
  process_event s e st =
      (if includes_id (st.world).recently_checked e.id
          then pure tt
          else (lift (s.on_event e) >>= λ _. remember_id e.id))
        st

  -- The loop over the events of a page: whether it meets an event past the stop ledger, and the
  -- ledger of that event.
  unfoldable pub process_events :
      EventSource W → Option ℕ → List EventResponse → Effect (EventWorld W) (Option ℕ)
  unfolding process_event from_event_response
  process_events s stop_ledger [] = pure none
  process_events s stop_ledger (response ∷ responses) =
      let rest = process_events s stop_ledger responses in
      from_result (from_event_response response) >>= λ e.
      if passed stop_ledger e.ledger
      then pure (some e.ledger)
      else (process_event s e >>= λ _. rest)

  abbrev pub live_result : ℕ → Bool → Bool → Effect (EventWorld W) LiveIngestionResult
  live_result n should_wait hit_stop_ledger =
      pure
        (record { next_ledger = n; should_wait = should_wait; hit_stop_ledger = hit_stop_ledger })

  -- The end of the loop over the pages.
  unfoldable pub chain_state : ℕ → ℕ → Effect (EventWorld W) LiveIngestionResult
  chain_state latest sequence =
      if ltb latest sequence
      then live_result sequence true false
      else if latest == sequence
      then live_result (sequence + 1) true false
      else live_result (sequence + 1) false false

  abbrev pub wait_page : EventSource W → Effect (EventWorld W) (Unit {0})
  wait_page s st = (with_outer (st.world).recently_checked (s.wait_paging (outer_state st)), ok tt)

  abbrev pub next_page :
      EventSource W
      → ℕ
      → EventsResponse
      → (Text → Effect (EventWorld W) LiveIngestionResult)
      → List EventResponse
      → Option Text
      → Effect (EventWorld W) LiveIngestionResult
  next_page s sequence response again [] cursor = chain_state response.latest_ledger sequence
  next_page s sequence response again (_ ∷ _) none = chain_state response.latest_ledger sequence
  next_page s sequence response again (_ ∷ _) (some cursor) = wait_page s >>= λ _. again cursor

  abbrev pub after_page :
      EventSource W
      → ℕ
      → EventsResponse
      → (Text → Effect (EventWorld W) LiveIngestionResult)
      → Option ℕ
      → Effect (EventWorld W) LiveIngestionResult
  after_page s sequence response again (some ledger) = live_result ledger false true
  after_page s sequence response again none =
      next_page s sequence response again response.events (truthy_cursor response.cursor)

  -- The loop over the pages; a server may give cursors for ever, so it runs on fuel.
  unfoldable pub pages :
      ℕ → EventSource W → ℕ → Option ℕ → Request → Effect (EventWorld W) LiveIngestionResult
  unfolding process_events chain_state
  pages zero s sequence stop_ledger request = throws out_of_fuel
  pages (suc fuel) s sequence stop_ledger request = lift (s.get_events request) >>= λ response.
      process_events s stop_ledger response.events >>= λ past.
      after_page s sequence response
        (λ cursor. pages fuel s sequence stop_ledger (from_cursor cursor)) past

  -- `ingestLiveEvents`
  unfoldable pub ingest_live_events :
      ℕ → EventSource W → ℕ → Option ℕ → Effect (EventWorld W) LiveIngestionResult
  unfolding pages
  ingest_live_events fuel s sequence stop_ledger =
      pages fuel s sequence stop_ledger (from_ledger sequence)

  -- The loop over the ledgers of a response; its handler may set the running flag.
  unfoldable pub parse_ledgers :
      EventSource W → List EventFilter → List LedgerCloseMeta → Effect (EventWorld W) (Unit {0})
  unfolding parse_events_from_ledger_close_meta
  parse_ledgers s filters [] = pure tt
  parse_ledgers s filters (ledger ∷ ledgers) =
      let rest = parse_ledgers s filters ledgers in
      parse_events_from_ledger_close_meta parsing ledger (λ e. lift (s.on_event e)) filters >>= λ _.
      rest

  abbrev pub wait_then : EventSource W → ℕ → Effect (EventWorld W) IngestRound
  wait_then s n st =
      (with_outer (st.world).recently_checked (s.wait_archival (outer_state st)), ok (go_on n))

  -- A round of `ingestArchiveEvents`; its whole body stands in the `try` block.
  unfoldable pub archive_events_round :
      EventSource W
      → List EventFilter
      → Options (EventWorld W)
      → ℕ
      → Effect (EventWorld W) IngestRound
  unfolding attempt maybe_checkpoint parse_ledgers
  archive_events_round s filters o current =
      attempt go_on o current
        (lift (s.get_ledgers current) >>= λ ledgers. parse_ledgers s filters ledgers >>= λ _.
          maybe_checkpoint o current >>= λ _. wait_then s (current + 1))
        pure

  -- `ingestArchiveEvents`
  unfoldable pub ingest_archive_events :
      ℕ
      → EventSource W
      → List EventFilter
      → ℕ
      → ℕ
      → Options (EventWorld W)
      → Effect (EventWorld W) ℕ
  unfolding while_within archive_events_round
  ingest_archive_events fuel s filters start_ledger stop_ledger o =
      while_within fuel (archive_events_round s filters o) stop_ledger start_ledger

  -- `createEventStreamer`: a live and an archive source, and the rest of the streamer.
  unfoldable pub create_event_streamer :
      ℕ
      → EventSource W
      → EventSource W
      → List EventFilter
      → Effect (EventWorld W) Health
      → (has_archive_rpc skip : Bool) → (State (EventWorld W) → State (EventWorld W))
      → RpcStreamer (EventWorld W)
  create_event_streamer fuel live archive filters get_health has_archive_rpc skip wait = record {
    get_health = get_health;
    ingest_live = some (ingest_live_events fuel live);
    ingest_archive = some (ingest_archive_events fuel archive filters);
    has_archive_rpc = has_archive_rpc;
    skip_ledger_wait_if_behind = skip;
    wait_for_ledger = wait;
  }
