-- ===== src/Events/Tests.antt =====
-- A ledger with an event, and instances of the theorems.
use mathlib.Core.List.{Memᴰ}
use colibri.Events.Filter.{ScVal, EventFilter, any_one, is_included_in_filters}
use colibri.Events.Filter.Selection.{Admitted, is_included_in_filters-Admitted}
use colibri.Common.{
  text_eq, to_decimal, all_digits, decimal_value, none, some, List, [], ◌∷◌, ◌++◌, true, ok, ◌≡◌,
  codes, All, Text, refl, map, leb,
}
use colibri.Events.Filter.{any_rest, EventType, event_topics_match_filter_topic}
use colibri.Events.Filter.Topics.{values_of, exact_filter, double_wildcard-matches_one}
use colibri.Events.Event.{Event}
use colibri.Events.Parsing.{
  ParsingError, ContractEvent, LedgerCloseMeta, Step, parse_events_from_ledger_close_meta,
}
use colibri.Events.Delivered.{Belongs, parse_events_from_ledger_close_meta-Belongs}

abbrev transfer : ContractEvent
transfer = record {
  topics = values_of (codes "transfer" ∷ []);
  data_of = record { base64 = some (codes "AAAA") };
  type_of = EventType.contract;
  contract_id = none;
}

abbrev ledger : LedgerCloseMeta
ledger = record {
  is_valid = true;
  version = 2;
  ledger_seq = 123456;
  close_time = codes "1700000000";
  tx_processing =
      record {
        operations = some ((transfer ∷ transfer ∷ []) ∷ []);
        transaction_hash = codes "ab";
        is_success = true;
      }
      ∷ [];
}

abbrev collect : Event → Step (List Event) ParsingError
collect e events = (e ∷ events, ok tt)

abbrev ids_of : List Event → List Text
ids_of = map (λ e. e.id)

delivered :
    ids_of (parse_events_from_ledger_close_meta (λ e. e) ledger collect [] []).0
    ≡ codes "0000530239482499072-0000000001" ∷ codes "0000530239482499072-0000000000" ∷ []
unfolding parse_events_from_ledger_close_meta to_decimal all_digits decimal_value
delivered = refl

parse_events_from_ledger_close_meta-Belongs_example :
    All (Belongs ledger []) (parse_events_from_ledger_close_meta (λ e. e) ledger collect [] []).0
parse_events_from_ledger_close_meta-Belongs_example =
    parse_events_from_ledger_close_meta-Belongs (λ e. e) collect ledger [] (All (Belongs ledger []))
      (λ e s b p. (b, p)) [] tt

double_wildcard-matches_one_example :
    event_topics_match_filter_topic
      (exact_filter (codes "transfer" ∷ []) ++ (any_rest ∷ []))
      (values_of ((codes "transfer" ∷ []) ++ []))
    ≡ ok (leb 1 0)
double_wildcard-matches_one_example = double_wildcard-matches_one (codes "transfer") [] []

abbrev transfers : EventFilter
transfers = record {
  type_of = some EventType.contract;
  contract_ids = none;
  topics = some ((exact_filter (codes "mint" ∷ [])) ∷ (any_one ∷ any_rest ∷ []) ∷ []);
}

abbrev two_topics : List ScVal
two_topics = values_of (codes "transfer" ∷ codes "alice" ∷ [])

is_included_in_filters-Admitted_example :
    (f : EventFilter) × Memᴰ f (transfers ∷ []) × Admitted f none EventType.contract two_topics
unfolding is_included_in_filters text_eq
is_included_in_filters-Admitted_example =
    is_included_in_filters-Admitted transfers [] none EventType.contract two_topics refl
