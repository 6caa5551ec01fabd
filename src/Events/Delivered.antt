-- ===== src/Events/Delivered.antt =====
-- The events that core/event/parsing/ledger-close-meta.ts gives to a handler.
use colibri.Common.{
  ◌++◌, length, length-append, append_assoc, ℕ, ◌+◌, ◌-◌, ◌≤◌, Bool, true, false, Option, none,
  some, List, [], ◌∷◌, Text, Result, ok, err, ◌≡◌, refl, rethrow, pos, arith, rethrow-eq-ok, ◌||◌,
  Result-cases, inl, inr, ok-injective, sym, subst, ◌∙◌,
}
use colibri.Toid.{create_toid}
use colibri.Toid.RoundTrip.{InRange, create_toid-InRange}
use colibri.EventId.{max_event_index, create_event_id, create_event_id_from_parts, parse_event_id}
use colibri.EventId.RoundTrip.{parse_event_id-create_event_id}
use colibri.Events.Filter.{FilterError, EventFilter, is_included_in_filters}
use colibri.Events.Event.{Event, new_event, new_event-same}
use colibri.Events.Parsing.{
  ParsingError, ContractEvent, TxProcessing, LedgerCloseMeta, event_at, make_event,
  is_ledger_close_meta_v1, is_ledger_close_meta_v2, if_supported, Step, and_then, deliver,
  deliver_if, parse_events, operations_or_throw, parse_operations, parse_transactions,
  parse_events_from_ledger_close_meta,
}

-- One list item among others, where `n` counts from 1.
abbrev pub Placed {ℓ} : {A : Type ℓ} → List A → A → ℕ → Type ℓ
Placed {A = A} xs x n =
    (before : List A) × (after : List A) × (xs ≡ before ++ x ∷ after) × (n ≡ length before + 1)

-- A list of which `n` items are done and the rest is left.
abbrev Walked {ℓ} : {A : Type ℓ} → List A → ℕ → List A → Type ℓ
Walked {A = A} xs n rest = (before : List A) × (xs ≡ before ++ rest) × (n ≡ length before)

module _ {ℓ} {A : Type ℓ} where
  Walked-Placed :
      (xs : List A) (n : ℕ) (x : A) (rest : List A) → Walked xs n (x ∷ rest) → Placed xs x (n + 1)
  Walked-Placed xs n x rest (before, split, count) = (before, rest, split, omega (arith, count))

  Walked-next :
      (xs : List A) (n : ℕ) (x : A) (rest : List A)
      → Walked xs n (x ∷ rest)
      → Walked xs (n + 1) rest
  Walked-next xs n x rest (before, split, count) = (
    before ++ x ∷ [],
    split ∙ sym (append_assoc before (x ∷ []) rest),
    omega (arith, count, length-append before (x ∷ [])),
  )

-- The transaction, the operation and the event at a position of the ledger, whose parts count from 1.
abbrev pub IsAt :
    LedgerCloseMeta
    → TxProcessing
    → List ContractEvent
    → ContractEvent
    → (transaction_index operation_index event_index : ℕ) → Type 0
IsAt m tx op event t o i =
    (ops : List (List ContractEvent)) × Placed m.tx_processing tx t
    × (tx.operations ≡ some ops)
    × Placed ops op o
    × Placed op event i

-- An event with the content of one in the ledger, which the filters include, and whose id is that of
-- the position of that one in the ledger.
pub record Belongs (m : LedgerCloseMeta) (filters : List EventFilter) (e : Event) : Type 0 where
  pub ledger : e.ledger ≡ m.ledger_seq
  pub included : is_included_in_filters filters e.contract_id e.type_of e.topic ≡ ok true
  pub tx : TxProcessing
  pub op : List ContractEvent
  pub event : ContractEvent
  pub event_index : ℕ
  pub is_at : IsAt m tx op event e.transaction_index e.operation_index (event_index + 1)
  pub content :
      (e.topic ≡ event.topics)
      × (e.value ≡ event.data_of)
      × (e.type_of ≡ event.type_of)
      × (e.contract_id ≡ event.contract_id)
      × (e.tx_hash ≡ tx.transaction_hash)
      × (e.in_successful_contract_call ≡ tx.is_success)
      × (e.ledger_closed_at ≡ m.close_time)
  pub reads :
      parse_event_id e.id
      ≡ ok (record {
        toid_parts = record {
          ledger_sequence = e.ledger;
          transaction_order = e.transaction_index;
          operation_index = e.operation_index;
        };
        event_index = event_index;
      })

created_parts :
    (l t o i : ℕ) (id : Text)
    → create_event_id_from_parts (pos l) (pos t) (pos o) (pos i) ≡ ok id
    → InRange l t o × (1 ≤ i) × (i ≤ max_event_index)
unfolding create_event_id_from_parts create_event_id
created_parts l t o i id h = elim (Result-cases (create_toid (pos l) (pos t) (pos o))) [
  | inl (s, e) ↦ (
    create_toid-InRange l t o s e,
    (let h' = rw e at h in ground arith),
    (let h' = rw e at h in ground arith),
  )
  | inr (_, e) ↦ absurd (let h' = rw e at h in cc)
]

event_at-Belongs :
    (m : LedgerCloseMeta) (filters : List EventFilter) (tx : TxProcessing) (t o i : ℕ)
    (op : List ContractEvent) (event : ContractEvent) (id : Text)
    → IsAt m tx op event t o i
    → is_included_in_filters filters event.contract_id event.type_of event.topics ≡ ok true
    → create_event_id_from_parts (pos m.ledger_seq) (pos t) (pos o) (pos i) ≡ ok id
    → Belongs m filters (event_at m tx t o event id)
event_at-Belongs m filters tx t o i op event id place included made =
    let (range, lo, hi) = created_parts m.ledger_seq t o i id made in
    let (id', made', _, parsed) = parse_event_id-create_event_id m.ledger_seq t o i range lo hi in
    let same : id' ≡ id = ok-injective (sym made' ∙ made) in
    let back : i - 1 + 1 ≡ i = omega arith in
    record {
      ledger = refl;
      included = included;
      tx = tx;
      op = op;
      event = event;
      event_index = i - 1;
      is_at = subst (IsAt m tx op event t o) (sym back) place;
      content = (refl, refl, refl, refl, refl, refl, refl);
      reads = rw same at parsed;
    }

make_event-Belongs :
    (m : LedgerCloseMeta) (filters : List EventFilter) (tx : TxProcessing) (t o i : ℕ)
    (op : List ContractEvent) (event : ContractEvent) (e : Event)
    → IsAt m tx op event t o i
    → is_included_in_filters filters event.contract_id event.type_of event.topics ≡ ok true
    → make_event m tx t o i event ≡ ok e
    → Belongs m filters e
unfolding make_event
make_event-Belongs m filters tx t o i op event e place included h =
    elim (Result-cases (create_event_id_from_parts (pos m.ledger_seq) (pos t) (pos o) (pos i))) [
      | inl (id, made) ↦
          let built : rethrow ParsingError.event_error (new_event (event_at m tx t o event id))
              ≡ ok e =
            rw made at h in
          subst (Belongs m filters)
            (new_event-same (event_at m tx t o event id) e (
              rethrow-eq-ok ParsingError.event_error (new_event (event_at m tx t o event id))
                built))
            (event_at-Belongs m filters tx t o i op event id place included made)
      | inr (_, made) ↦ absurd (let h' = rw made at h in cc)
    ]

-- A property of the state that a handler keeps at each event it may be given is kept by the parsing.
module _ {S E : Type 0} (embed : ParsingError → E) (on_event : Event → Step S E)
    (m : LedgerCloseMeta) (filters : List EventFilter) (P : S → Type 0)
    (keeps : (e : Event) (s : S) → Belongs m filters e → P s → P ((on_event e s).0)) where
  and_then-keeps :
      (r : S × Result E (Unit {0})) (next : Step S E)
      → P (r.0)
      → ((s : S) → P s → P ((next s).0))
      → P ((and_then r next).0)
  and_then-keeps (s, ok _) next p k = k s p
  and_then-keeps (s, err e) next p k = p

  deliver-keeps :
      (event : Result ParsingError Event) (s : S)
      → ((e : Event) → event ≡ ok e → Belongs m filters e)
      → P s
      → P ((deliver embed on_event event s).0)
  deliver-keeps (ok e) s belongs p = keeps e s (belongs e refl) p
  deliver-keeps (err e) s belongs p = p

  deliver_if-keeps :
      (event : Result ParsingError Event) (included : Result FilterError Bool) (s : S)
      → (included ≡ ok true → (e : Event) → event ≡ ok e → Belongs m filters e)
      → P s
      → P ((deliver_if embed on_event event included s).0)
  deliver_if-keeps event (ok true) s belongs p = deliver-keeps event s (belongs refl) p
  deliver_if-keeps event (ok false) s belongs p = p
  deliver_if-keeps event (err e) s belongs p = p

  parse_events-keeps :
      (tx : TxProcessing) (t o i : ℕ) (ops : List (List ContractEvent)) (op : List ContractEvent)
      (events : List ContractEvent) (s : S)
      → Placed m.tx_processing tx t
      → tx.operations ≡ some ops
      → Placed ops op o
      → Walked op i events
      → P s
      → P ((parse_events embed on_event filters m tx t o i events s).0)
  unfolding parse_events
  parse_events-keeps tx t o i ops op [] s in_ledger its at_op walked p = p
  parse_events-keeps tx t o i ops op (event ∷ events) s in_ledger its at_op walked p =
      and_then-keeps _ _
        (deliver_if-keeps _ _ s
          (λ included e.
            make_event-Belongs m filters tx t o (i + 1) op event e
              (ops, in_ledger, its, at_op, Walked-Placed op i event events walked) included)
          p)
        (λ s' p'.
          parse_events-keeps tx t o (i + 1) ops op events s' in_ledger its at_op
            (Walked-next op i event events walked) p')

  parse_operations-keeps :
      (tx : TxProcessing) (t o : ℕ) (all ops : List (List ContractEvent)) (s : S)
      → Placed m.tx_processing tx t
      → tx.operations ≡ some all
      → Walked all o ops
      → P s
      → P ((parse_operations embed on_event filters m tx t o ops s).0)
  unfolding parse_operations
  parse_operations-keeps tx t o all [] s in_ledger its walked p = p
  parse_operations-keeps tx t o all (op ∷ ops) s in_ledger its walked p =
      and_then-keeps _ _
        (parse_events-keeps tx t (o + 1) 0 all op op s in_ledger its
          (Walked-Placed all o op ops walked) ([], refl, refl) p)
        (λ s' p'.
          parse_operations-keeps tx t (o + 1) all ops s' in_ledger its
            (Walked-next all o op ops walked) p')

  operations_or_throw-keeps :
      (ops : Option (List (List ContractEvent))) (next : List (List ContractEvent) → Step S E)
      (s : S)
      → ((l : List (List ContractEvent)) (s : S) → ops ≡ some l → P s → P ((next l s).0))
      → P s
      → P ((operations_or_throw embed ops next s).0)
  operations_or_throw-keeps none next s k p = p
  operations_or_throw-keeps (some ops) next s k p = k ops s refl p

  parse_transactions-keeps :
      (t : ℕ) (txs : List TxProcessing) (s : S)
      → Walked m.tx_processing t txs
      → P s
      → P ((parse_transactions embed on_event filters m t txs s).0)
  unfolding parse_transactions
  parse_transactions-keeps t [] s walked p = p
  parse_transactions-keeps t (tx ∷ txs) s walked p =
      and_then-keeps _ _
        (operations_or_throw-keeps tx.operations _ s
          (λ l s' its p'.
            parse_operations-keeps tx (t + 1) 0 l l s'
              (Walked-Placed m.tx_processing t tx txs walked) its ([], refl, refl) p')
          p)
        (λ s' p'.
          parse_transactions-keeps (t + 1) txs s' (Walked-next m.tx_processing t tx txs walked) p')

  if_supported-keeps :
      (valid known : Bool) (next : Step S E) (s : S)
      → ((s : S) → P s → P ((next s).0))
      → P s
      → P ((if_supported embed valid known m.version next s).0)
  if_supported-keeps false known next s k p = p
  if_supported-keeps true false next s k p = p
  if_supported-keeps true true next s k p = k s p

  -- A property of the state is kept by the parsing of a ledger, whatever its result, if the handler
  -- keeps it at each event that belongs to the ledger: the event has the
  -- content of an event of the ledger, the filters include it, and `parseEventId` reads from its id the
  -- ledger and the places of that event: that of its transaction in the ledger and that of its operation
  -- in the transaction, which count from 1, and that of the event in the operation, which counts from 0.
  pub parse_events_from_ledger_close_meta-Belongs :
      (s : S) → P s → P ((parse_events_from_ledger_close_meta embed m on_event filters s).0)
  unfolding parse_events_from_ledger_close_meta
  parse_events_from_ledger_close_meta-Belongs s p =
      if_supported-keeps m.is_valid (is_ledger_close_meta_v1 m || is_ledger_close_meta_v2 m) _ s
        (λ s' p'. parse_transactions-keeps 0 m.tx_processing s' ([], refl, refl) p') p
