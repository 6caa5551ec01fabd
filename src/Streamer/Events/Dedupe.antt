-- ===== src/Streamer/Events/Dedupe.antt =====
-- The list of recent ids of rpc-streamer/src/variants/event/index.ts, and which events reach the
-- handler in live mode.
use colibri.Common.{
  ℕ, zero, suc, Bool, true, false, Option, none, some, List, [], ◌∷◌, Text, if◌then◌else◌, ◌==◌,
  ltb, Result, ok, err, ◌≡◌, refl,
}
use colibri.Events.Filter.{includes_id}
use colibri.Events.Event.{Event, EventResponse, EventError, from_event_response}
use colibri.Streamer.Effect.{State, Effect, pure, ◌>>=◌}
use colibri.Streamer.Modes.{LiveIngestionResult, passed}
use colibri.Streamer.Safety.{Keeps, bind-Keeps, if-Keeps}
use colibri.Streamer.Events.{
  EventsResponse, EventWorld, Request, from_ledger, from_cursor, EventSource, truthy_cursor, lift,
  from_result, remember_id, process_event, process_events, chain_state, wait_page, next_page,
  after_page, pages, ingest_live_events,
}

-- What the calls of a live ingestion keep; the handler needs to do so only for an event that is not
-- past the stop ledger and whose id is not in the list, together with the id that is then added.
pub record LiveKeeps {W : Type 0} (P : State (EventWorld W) → Type 0) (s : EventSource W)
    (stop_ledger : Option ℕ) : Type 0 where
  pub fetch : (request : Request) → Keeps P (lift (s.get_events request))
  pub wait : Keeps P (wait_page s)
  pub deliver :
      (e : Event) (st : State (EventWorld W))
      → passed stop_ledger e.ledger ≡ false
      → includes_id (st.world).recently_checked e.id ≡ false
      → P st
      → P (((lift (s.on_event e) >>= λ _. remember_id e.id) st).0)

module _ {W : Type 0} (P : State (EventWorld W) → Type 0) (s : EventSource W)
    (stop_ledger : Option ℕ) (k : LiveKeeps P s stop_ledger) where
  from_result-Keeps : {A : Type 0} (r : Result EventError A) → Keeps P (from_result {W = W} r)
  from_result-Keeps (ok a) st p = p
  from_result-Keeps (err e) st p = p

  process_event-Keeps :
      (e : Event) → passed stop_ledger e.ledger ≡ false → Keeps P (process_event s e)
  unfolding process_event
  process_event-Keeps e h st p =
      if_at-P (includes_id (st.world).recently_checked e.id) (pure tt)
        (lift (s.on_event e) >>= λ _. remember_id e.id) (λ _. p) (λ fresh. k.deliver e st h fresh p)
    where
      if_at-P :
          (b : Bool) (m n : Effect (EventWorld W) (Unit {0}))
          → (b ≡ true → P ((m st).0))
          → (b ≡ false → P ((n st).0))
          → P (((if b then m else n) st).0)
      if_at-P true m n km kn = km refl
      if_at-P false m n km kn = kn refl

  process_events-Keeps :
      (responses : List EventResponse) → Keeps P (process_events s stop_ledger responses)
  unfolding process_events
  process_events-Keeps [] st p = p
  process_events-Keeps (response ∷ responses) st p =
      bind-Keeps P (from_result (from_event_response response))
        (λ e.
          if passed stop_ledger e.ledger
          then pure (some e.ledger)
          else (process_event s e >>= λ _. process_events s stop_ledger responses))
        (from_result-Keeps _)
        (λ e.
          if-Keeps P (passed stop_ledger e.ledger) _ _ (λ _ st p. p)
            (λ h.
              bind-Keeps P (process_event s e) (λ _. process_events s stop_ledger responses)
                (process_event-Keeps e h) (λ _. process_events-Keeps responses)))
        st p

  chain_state-Keeps : (latest sequence : ℕ) → Keeps P (chain_state {W = W} latest sequence)
  unfolding chain_state
  chain_state-Keeps latest sequence =
      if-Keeps P (ltb latest sequence) _ _ (λ _ st p. p)
        (λ _. if-Keeps P (latest == sequence) _ _ (λ _ st p. p) (λ _ st p. p))

  next_page-Keeps :
      (sequence : ℕ) (response : EventsResponse)
      (again : Text → Effect (EventWorld W) LiveIngestionResult) (events : List EventResponse)
      (cursor : Option Text)
      → ((cursor : Text) → Keeps P (again cursor))
      → Keeps P (next_page s sequence response again events cursor)
  next_page-Keeps sequence response again [] cursor ka =
      chain_state-Keeps response.latest_ledger sequence
  next_page-Keeps sequence response again (_ ∷ _) none ka =
      chain_state-Keeps response.latest_ledger sequence
  next_page-Keeps sequence response again (_ ∷ _) (some cursor) ka =
      bind-Keeps P (wait_page s) (λ _. again cursor) k.wait (λ _. ka cursor)

  after_page-Keeps :
      (sequence : ℕ) (response : EventsResponse)
      (again : Text → Effect (EventWorld W) LiveIngestionResult) (past : Option ℕ)
      → ((cursor : Text) → Keeps P (again cursor))
      → Keeps P (after_page s sequence response again past)
  after_page-Keeps sequence response again none ka st p =
      next_page-Keeps sequence response again response.events (truthy_cursor response.cursor) ka st
        p
  after_page-Keeps sequence response again (some ledger) ka st p = p

  pages-Keeps :
      (fuel sequence : ℕ) (request : Request) → Keeps P (pages fuel s sequence stop_ledger request)
  unfolding pages
  pages-Keeps zero sequence request st p = p
  pages-Keeps (suc fuel) sequence request st p =
      bind-Keeps P (lift (s.get_events request))
        (λ response. process_events s stop_ledger response.events >>= λ past.
          after_page s sequence response
            (λ cursor. pages fuel s sequence stop_ledger (from_cursor cursor)) past)
        (k.fetch request)
        (λ response.
          bind-Keeps P (process_events s stop_ledger response.events)
            (λ past.
              after_page s sequence response
                (λ cursor. pages fuel s sequence stop_ledger (from_cursor cursor)) past)
            (process_events-Keeps response.events)
            (λ past.
              after_page-Keeps sequence response
                (λ cursor. pages fuel s sequence stop_ledger (from_cursor cursor)) past
                (λ cursor. pages-Keeps fuel sequence (from_cursor cursor))))
        st p

  -- A property of the state is kept by the live ingestion of a ledger, however it ends, if the server
  -- and the waits keep it, and the handler with the id that is added keeps it at each event that is
  -- not past the stop ledger and whose id is not in the list: no other event reaches the handler.
  pub ingest_live_events-fresh :
      (fuel sequence : ℕ) → Keeps P (ingest_live_events fuel s sequence stop_ledger)
  unfolding ingest_live_events
  ingest_live_events-fresh fuel sequence = pages-Keeps fuel sequence (from_ledger sequence)
