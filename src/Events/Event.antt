-- ===== src/Events/Event.antt =====
-- The constructor of core/event/event.ts, and its `fromEventResponse`.
use colibri.Common.{
  ◌≡◌, arith, ℕ, Bool, true, false, Option, none, some, List, [], ◌∷◌, Text, Result, ok, ◌>>=◌,
  ◌>>◌, err, codes, text_eq, if◌then◌else◌, assert,
}
use colibri.Strkey.{is_contract_id}
use colibri.EventId.{is_event_id}
use colibri.Events.Filter.{ScVal, EventType}

-- `xdr_failed` is an error of the SDK in `toXDR`.
pub data EventError : Type 0 where
  invalid_contract_id invalid_event_id unknown_event_type : Text → EventError
  xdr_failed : EventError

-- An event, and also what its constructor is given. A topic is kept by its XDR, from which the code
-- makes its own copy of the value.
pub record Event : Type 0 where
  pub id : Text
  pub ledger : ℕ
  pub ledger_closed_at : Text
  pub contract_id : Option Text
  pub type_of : EventType
  pub tx_hash : Text
  pub transaction_index : ℕ
  pub operation_index : ℕ
  pub topic : List ScVal
  pub value : ScVal
  pub in_successful_contract_call : Bool

abbrev has_xdr : ScVal → Bool
has_xdr v = elim v.base64 [ none ↦ false | some _ ↦ true ]

abbrev all_have_xdr : List ScVal → Bool
all_have_xdr [] = true
all_have_xdr (v ∷ vs) = let rest = all_have_xdr vs in elim v.base64 [ none ↦ false | some _ ↦ rest ]

abbrev valid_contract : Option Text → Result EventError (Unit {0})
valid_contract none = ok tt
valid_contract (some c) = assert (is_contract_id c) (invalid_contract_id c)

unfoldable pub new_event : Event → Result EventError Event
unfolding is_contract_id is_event_id
new_event args = do
  valid_contract args.contract_id
  assert (is_event_id args.id) (invalid_event_id args.id)
  assert (all_have_xdr args.topic) xdr_failed
  assert (has_xdr args.value) xdr_failed
  ok args

-- A response of the RPC server: a type that is one of its words, the contract of the SDK's object
-- (`contractId()`), and the other fields, as in `Event`.
pub record EventResponse : Type 0 where
  pub response_type : Text
  pub response_contract : Option Text
  pub fields : Event

abbrev response_type_of : Text → Result EventError EventType
response_type_of name =
    if text_eq name (codes "contract")
    then ok EventType.contract
    else if text_eq name (codes "system")
    then ok EventType.system
    else err (unknown_event_type name)

-- `Event.fromEventResponse`
unfoldable pub from_event_response : EventResponse → Result EventError Event
unfolding new_event text_eq
from_event_response response = do
  type_of ← response_type_of response.response_type
  valid_contract response.response_contract
  new_event (record response.fields { type_of = type_of; contract_id = response.response_contract })

-- A new event has the fields that it is given.
pub new_event-same : (args e : Event) → new_event args ≡ ok e → args ≡ e
unfolding new_event
new_event-same args e h = ground arith
