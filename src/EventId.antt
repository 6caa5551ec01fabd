-- ===== src/EventId.antt =====
-- core/event/event-id/index.ts: event ids, a TOID and the index of an event of its operation.
pub mod RoundTrip
use colibri.Common.{
  ℕ, ◌-◌, Bool, false, ◌&&◌, List, [], ◌∷◌, ◌++◌, Text, ◌==◌, if◌then◌else◌, take, drop, length,
  Result, ok, err, ◌>>=◌, ◌>>◌, assert, rethrow, ℤ, in_range, pos_part, all_digits, decimal_value,
  to_decimal, pad_start,
}
use colibri.Toid.{ToidError, ToidParts, is_toid, create_toid, parse_toid}

pub data EventIdError : Type 0 where
  event_index_out_of_range : ℤ → EventIdError
  invalid_event_id_format : Text → EventIdError
  toid_error : ToidError → EventIdError

pub record EventIdParts : Type 0 where
  pub toid_parts : ToidParts
  pub event_index : ℕ

abbrev digits_of_length : ℕ → Text → Bool
digits_of_length n s = length s == n && all_digits s

abbrev dash_then_digits : ℕ → Text → Bool
dash_then_digits n [] = false
dash_then_digits n (c ∷ s) = c == b'-' && digits_of_length n s

-- `/^\d{19}-\d{10}$/`
unfoldable pub matches_event_id : Text → Bool
matches_event_id id = digits_of_length 19 (take 19 id) && dash_then_digits 10 (drop 19 id)

push_char : ℕ → List Text → List Text
push_char c [] = (c ∷ []) ∷ []
push_char c (part ∷ parts) = (c ∷ part) ∷ parts

-- `s.split(c)` for a separator of one character.
unfoldable pub split : ℕ → Text → List Text
unfolding push_char
split sep [] = [] ∷ []
split sep (c ∷ s) = if c == sep then [] ∷ split sep s else push_char c (split sep s)

-- `const [first, second] = parts`; what is missing reads as the empty text, which neither `isTOID`
-- nor the expression above accepts.
abbrev first_part : List Text → Text
first_part [] = []
first_part (part ∷ parts) = part

abbrev second_part : List Text → Text
second_part [] = []
second_part (part ∷ parts) = first_part parts

unfoldable pub is_event_id : Text → Bool
unfolding matches_event_id split is_toid
is_event_id id = matches_event_id id && is_toid (first_part (split b'-' id))

abbrev pub max_event_index : ℕ
max_event_index = 9999999999

unfoldable pub create_event_id : Text → ℤ → Result EventIdError Text
create_event_id toid event_index = do
  assert (in_range 1 max_event_index event_index)
      (EventIdError.event_index_out_of_range event_index)
  ok (pad_start 19 b'0' toid ++ (b'-' ∷ pad_start 10 b'0' (to_decimal (pos_part event_index - 1))))

unfoldable pub create_event_id_from_parts : ℤ → ℤ → ℤ → ℤ → Result EventIdError Text
unfolding create_event_id create_toid
create_event_id_from_parts ledger_sequence transaction_order operation_index event_index = do
  id ←
      rethrow EventIdError.toid_error
        (create_toid ledger_sequence transaction_order operation_index)
  create_event_id id event_index

unfoldable pub parse_event_id : Text → Result EventIdError EventIdParts
unfolding is_event_id parse_toid
parse_event_id event_id = do
  assert (is_event_id event_id) (EventIdError.invalid_event_id_format event_id)
  components ← rethrow EventIdError.toid_error (parse_toid (first_part (split b'-' event_id)))
  ok (record {
    toid_parts = components;
    event_index = decimal_value (second_part (split b'-' event_id));
  })
