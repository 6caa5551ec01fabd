-- ===== src/Events/Parsing.antt =====
-- core/event/parsing/ledger-close-meta.ts: the events of the metadata of a closed ledger, given to a
-- handler one by one.
use colibri.Common.{
  ℕ, ◌+◌, Bool, true, false, ◌||◌, Option, none, some, List, [], ◌∷◌, Text, ◌==◌, Result, ok, err,
  ◌>>=◌, rethrow, pos,
}
use colibri.EventId.{EventIdError, create_event_id_from_parts}
use colibri.Events.Filter.{ScVal, EventType, EventFilter, FilterError, is_included_in_filters}
use colibri.Events.Event.{Event, EventError, new_event}

-- `tx_meta_not_v4` is the SDK's error in `txApplyProcessing().v4()`.
pub data ParsingError : Type 0 where
  invalid_ledger_close_meta_xdr : ParsingError
  unsupported_ledger_close_meta_version : ℕ → ParsingError
  tx_meta_not_v4 : ParsingError
  filter_error : FilterError → ParsingError
  event_id_error : EventIdError → ParsingError
  event_error : EventError → ParsingError

-- What the SDK's accessors return of an event, a transaction and the metadata. The address of a
-- contract is already a text here.
pub record ContractEvent : Type 0 where
  pub topics : List ScVal
  pub data_of : ScVal
  pub type_of : EventType
  pub contract_id : Option Text

pub record TxProcessing : Type 0 where
  pub operations : Option (List (List ContractEvent))
  pub transaction_hash : Text
  pub is_success : Bool

pub record LedgerCloseMeta : Type 0 where
  pub is_valid : Bool
  pub version : ℕ
  pub ledger_seq : ℕ
  pub close_time : Text
  pub tx_processing : List TxProcessing

pub is_ledger_close_meta_v1 : LedgerCloseMeta → Bool
is_ledger_close_meta_v1 m = m.version == 1

pub is_ledger_close_meta_v2 : LedgerCloseMeta → Bool
is_ledger_close_meta_v2 m = m.version == 2

-- The arguments of the constructor of the event at a position of the ledger.
abbrev pub event_at :
    LedgerCloseMeta
    → TxProcessing
    → (transaction_index operation_index : ℕ) → ContractEvent
    → Text
    → Event
event_at m tx t o event id = record {
  id = id;
  ledger = m.ledger_seq;
  ledger_closed_at = m.close_time;
  contract_id = event.contract_id;
  type_of = event.type_of;
  tx_hash = tx.transaction_hash;
  transaction_index = t;
  operation_index = o;
  topic = event.topics;
  value = event.data_of;
  in_successful_contract_call = tx.is_success;
}

-- The event itself; the positions count from 1.
unfoldable pub make_event :
    LedgerCloseMeta
    → TxProcessing
    → (transaction_index operation_index event_index : ℕ) → ContractEvent
    → Result ParsingError Event
unfolding create_event_id_from_parts new_event
make_event m tx t o i event = do
  id ←
      rethrow event_id_error (create_event_id_from_parts (pos m.ledger_seq) (pos t) (pos o) (pos i))
  rethrow event_error (new_event (event_at m tx t o event id))

-- `S` is what a handler changes, and `E` the errors that leave the function.
abbrev pub Step : Type 0 → Type 0 → Type 0
Step S E = S → S × Result E (Unit {0})

module _ {S E : Type 0} where
  abbrev pub and_then : S × Result E (Unit {0}) → Step S E → S × Result E (Unit {0})
  and_then (s, ok _) next = next s
  and_then (s, err e) next = (s, err e)

  abbrev pub deliver :
      (ParsingError → E) → (Event → Step S E) → Result ParsingError Event → Step S E
  deliver embed on_event (ok event) s = on_event event s
  deliver embed on_event (err e) s = (s, err (embed e))

  abbrev pub deliver_if :
      (ParsingError → E)
      → (Event → Step S E)
      → Result ParsingError Event
      → Result FilterError Bool
      → Step S E
  deliver_if embed on_event event (ok true) s = deliver embed on_event event s
  deliver_if embed on_event event (ok false) s = (s, ok tt)
  deliver_if embed on_event event (err e) s = (s, err (embed (filter_error e)))

  -- The loop over the events of an operation; `i` events are done.
  unfoldable pub parse_events :
      (ParsingError → E)
      → (Event → Step S E)
      → List EventFilter
      → LedgerCloseMeta
      → TxProcessing
      → (t o i : ℕ) → List ContractEvent
      → Step S E
  unfolding is_included_in_filters make_event
  parse_events embed on_event filters m tx t o i [] s = (s, ok tt)
  parse_events embed on_event filters m tx t o i (event ∷ events) s =
      and_then
        (deliver_if embed on_event (make_event m tx t o (i + 1) event)
          (is_included_in_filters filters event.contract_id event.type_of event.topics) s)
        (parse_events embed on_event filters m tx t o (i + 1) events)

  -- The loop over the operations of a transaction; `o` operations are done.
  unfoldable pub parse_operations :
      (ParsingError → E)
      → (Event → Step S E)
      → List EventFilter
      → LedgerCloseMeta
      → TxProcessing
      → (t o : ℕ) → List (List ContractEvent)
      → Step S E
  unfolding parse_events
  parse_operations embed on_event filters m tx t o [] s = (s, ok tt)
  parse_operations embed on_event filters m tx t o (op ∷ ops) s =
      and_then (parse_events embed on_event filters m tx t (o + 1) 0 op s)
        (parse_operations embed on_event filters m tx t (o + 1) ops)

  abbrev pub operations_or_throw :
      (ParsingError → E)
      → Option (List (List ContractEvent))
      → (List (List ContractEvent) → Step S E)
      → Step S E
  operations_or_throw embed none next s = (s, err (embed tx_meta_not_v4))
  operations_or_throw embed (some ops) next s = next ops s

  -- The loop over the transactions; `t` transactions are done.
  unfoldable pub parse_transactions :
      (ParsingError → E)
      → (Event → Step S E)
      → List EventFilter
      → LedgerCloseMeta
      → ℕ
      → List TxProcessing
      → Step S E
  unfolding parse_operations
  parse_transactions embed on_event filters m t [] s = (s, ok tt)
  parse_transactions embed on_event filters m t (tx ∷ txs) s =
      and_then
        (operations_or_throw embed tx.operations
          (parse_operations embed on_event filters m tx (t + 1) 0) s)
        (parse_transactions embed on_event filters m (t + 1) txs)

  -- The two assertions, and `next` after them.
  abbrev pub if_supported :
      (ParsingError → E) → (valid known : Bool) (version : ℕ) → Step S E → Step S E
  if_supported embed false known version next s = (s, err (embed invalid_ledger_close_meta_xdr))
  if_supported embed true false version next s =
      (s, err (embed (unsupported_ledger_close_meta_version version)))
  if_supported embed true true version next s = next s

  unfoldable pub parse_events_from_ledger_close_meta :
      (ParsingError → E) → LedgerCloseMeta → (Event → Step S E) → List EventFilter → Step S E
  unfolding parse_transactions is_ledger_close_meta_v1 is_ledger_close_meta_v2
  parse_events_from_ledger_close_meta embed m on_event filters =
      if_supported embed m.is_valid (is_ledger_close_meta_v1 m || is_ledger_close_meta_v2 m)
        m.version (parse_transactions embed on_event filters m 0 m.tx_processing)
