-- ===== src/Toid/Tests.antt =====
-- Runs of the TOID and event id functions, and instances of the theorems. The ids of the comments in
-- core/toid/index.ts and core/event/event-id/index.ts are not those that the code computes.
use colibri.Common.{
  ◌≡◌, ◌↔◌, refl, true, Text, codes, length, ok, err, pos, negsuc, arith, text_lt, all_digits,
  decimal_value, to_decimal,
}
use colibri.Toid.{ToidError, ToidParts, is_toid, create_toid, parse_toid}
use colibri.Toid.RoundTrip.{InRange, parse_toid-create_toid, create_toid-parse_toid}
use colibri.Toid.Order.{Before, create_toid_order}
use colibri.EventId.{is_event_id, create_event_id_from_parts, parse_event_id}
use colibri.EventId.RoundTrip.{parse_event_id-create_event_id}

toid_runs : Unit {0}
unfolding create_toid parse_toid is_toid create_event_id_from_parts parse_event_id is_event_id
    all_digits decimal_value to_decimal text_lt
toid_runs = tt

created : create_toid (pos 123456) (pos 1) (pos 1) ≡ ok (codes "0000530239482499072")
unfolding toid_runs
created = refl

abbrev sample_parts : ToidParts
sample_parts = record { ledger_sequence = 123456; transaction_order = 1; operation_index = 1 }

parsed : parse_toid (codes "0000530239482499072") ≡ ok sample_parts
unfolding toid_runs
parsed = refl

-- The operation index 4096 and the transaction order 0, which `createTOID` does not take.
beyond :
    parse_toid (codes "4095")
    ≡ ok (record { ledger_sequence = 0; transaction_order = 0; operation_index = 4096 })
unfolding toid_runs
beyond = refl

refused : create_toid (pos 1) (negsuc 0) (pos 1) ≡ err (ToidError.tx_order_out_of_range (negsuc 0))
unfolding toid_runs
refused = refl

sample-InRange : InRange 123456 1 1
sample-InRange = omega arith

parse_toid-create_toid_example :
    (s : Text) × (create_toid (pos 123456) (pos 1) (pos 1) ≡ ok s)
    × (length s ≡ 19)
    × (is_toid s ≡ true)
    × (parse_toid s ≡ ok sample_parts)
parse_toid-create_toid_example = parse_toid-create_toid 123456 1 1 sample-InRange

create_toid-parse_toid_example :
    create_toid (pos 123456) (pos 1) (pos 1) ≡ ok (codes "0000530239482499072")
create_toid-parse_toid_example =
    create_toid-parse_toid (codes "0000530239482499072") sample_parts refl parsed (omega arith)
      (omega arith)

create_toid_order_example :
    (text_lt (codes "0000530239482499072") (codes "0000530239482499073") ≡ true)
    ↔ Before 123456 1 1 123456 1 2
unfolding toid_runs
create_toid_order_example =
    create_toid_order 123456 1 1 123456 1 2 (codes "0000530239482499072")
      (codes "0000530239482499073") sample-InRange (omega arith) refl refl

parse_event_id-create_event_id_example :
    (id : Text) × (create_event_id_from_parts (pos 123456) (pos 1) (pos 1) (pos 5) ≡ ok id)
    × (is_event_id id ≡ true)
    × (parse_event_id id ≡ ok (record { toid_parts = sample_parts; event_index = 4 }))
parse_event_id-create_event_id_example =
    parse_event_id-create_event_id 123456 1 1 5 sample-InRange (omega arith) (omega arith)
