-- ===== src/EventId/RoundTrip.antt =====
-- What `createEventIdFromParts` writes and `parseEventId` reads back, in core/event/event-id/index.ts.
use colibri.Common.{
  take-append, drop-append, ℕ, ◌-◌, ◌≤◌, ◌≡◌, refl, ◌∙◌, true, Text, [], ◌∷◌, ◌++◌, length, ok,
  rethrow, ◌>>=◌, pos, arith, all_digits, decimal_value, to_decimal, pad_start,
  decimal_value-to_decimal, decimal_value-pad, all_digits-to_decimal, all_digits-pad,
  length-to_decimal, length-pad,
}
use colibri.Toid.{is_toid, parse_toid, create_toid}
use colibri.Toid.RoundTrip.{InRange, parse_toid-create_toid, is_toid-inv}
use colibri.EventId.{
  EventIdError, split, is_event_id, max_event_index, create_event_id_from_parts, parse_event_id,
}

split-digits : (s : Text) → all_digits s ≡ true → split b'-' s ≡ s ∷ []
unfolding split all_digits
split-digits [] h = refl
split-digits (c ∷ s) h = ground (arith, split-digits s)

split_at_dash :
    (s r : Text)
    → all_digits s ≡ true
    → all_digits r ≡ true
    → split b'-' (s ++ (b'-' ∷ r)) ≡ s ∷ r ∷ []
unfolding split all_digits
split_at_dash [] r h k = rw (split-digits r k)
split_at_dash (c ∷ s) r h k = ground (arith, split_at_dash s r)

-- An id of 19 digits, a dash and 10 digits whose first part is a TOID.
joined-is_event_id :
    (s r : Text)
    → length s ≡ 19
    → length r ≡ 10
    → all_digits s ≡ true
    → all_digits r ≡ true
    → is_toid s ≡ true
    → is_event_id (s ++ (b'-' ∷ r)) ≡ true
unfolding is_event_id
joined-is_event_id s r ls lr ds dr valid =
    rw (take-append s (b'-' ∷ r) 19 ls, drop-append s (b'-' ∷ r) 19 ls, split_at_dash s r ds dr)
      (ground arith)

index_text : ℕ → Text
index_text i = pad_start 10 b'0' (to_decimal (i - 1))

length-index_text : (i : ℕ) → i ≤ max_event_index → length (index_text i) ≡ 10
unfolding index_text
length-index_text i h = length-pad 10 b'0' _ (length-to_decimal 9 (i - 1) (omega arith))

all_digits-index_text : (i : ℕ) → all_digits (index_text i) ≡ true
unfolding index_text
all_digits-index_text i = all_digits-pad 10 _ (all_digits-to_decimal (i - 1))

value-index_text : (i : ℕ) → decimal_value (index_text i) ≡ i - 1
unfolding index_text
value-index_text i = decimal_value-pad 10 (to_decimal (i - 1)) ∙ decimal_value-to_decimal (i - 1)

pad_full : (s : Text) (n : ℕ) → length s ≡ n → pad_start n b'0' s ≡ s
pad_full s n h = let e : n - length s ≡ 0 = omega arith in rw e refl

created_id :
    (l t o i : ℕ) (s : Text)
    → 1 ≤ i
    → i ≤ max_event_index
    → create_toid (pos l) (pos t) (pos o) ≡ ok s
    → length s ≡ 19
    → create_event_id_from_parts (pos l) (pos t) (pos o) (pos i) ≡ ok (s ++ (b'-' ∷ index_text i))
unfolding create_event_id_from_parts index_text
created_id l t o i s lo hi created len = rw created (ground (arith, pad_full s 19 len))

parse_event_id-eq :
    (id s r : Text)
    → is_event_id id ≡ true
    → split b'-' id ≡ s ∷ r ∷ []
    → parse_event_id id ≡ (
        rethrow EventIdError.toid_error (parse_toid s) >>= λ components.
        ok (record { toid_parts = components; event_index = decimal_value r }))
unfolding parse_event_id
parse_event_id-eq id s r valid parts = rw (valid, parts)

-- For components in range `createEventIdFromParts` returns a valid event id. `parseEventId` reads
-- the ledger, the transaction and the operation from it as they were given, and the event index as
-- one less than it was given.
pub parse_event_id-create_event_id :
    (l t o i : ℕ)
    → InRange l t o
    → 1 ≤ i
    → i ≤ max_event_index
    → (id : Text) × (create_event_id_from_parts (pos l) (pos t) (pos o) (pos i) ≡ ok id)
      × (is_event_id id ≡ true)
      × (parse_event_id id
          ≡ ok (record {
            toid_parts = record { ledger_sequence = l; transaction_order = t; operation_index = o };
            event_index = i - 1;
          }))
parse_event_id-create_event_id l t o i h lo hi =
    let (s, created, len, valid, parsed) = parse_toid-create_toid l t o h in
    let r = index_text i in
    let digits : all_digits s ≡ true = (is_toid-inv s valid).0 in
    let joined =
      joined-is_event_id s r len (length-index_text i hi) digits (all_digits-index_text i) valid in
    (
      s ++ (b'-' ∷ r),
      created_id l t o i s lo hi created len,
      joined,
      parse_event_id-eq (s ++ (b'-' ∷ r)) s r joined
            (split_at_dash s r digits (all_digits-index_text i))
          ∙ rw (parsed, value-index_text i) refl,
    )
