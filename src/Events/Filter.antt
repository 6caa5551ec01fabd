-- ===== src/Events/Filter.antt =====
-- core/event/event-filter/index.ts and `isIncludedInFilters` of core/event/parsing/ledger-close-meta.ts.
pub mod Topics
pub mod Selection
use colibri.Common.{
  ℕ, zero, suc, Bool, true, false, ◌&&◌, not, Option, none, some, List, [], ◌∷◌, Text, text_eq,
  if◌then◌else◌, ltb, leb, length, Result, ok, err, ◌>>=◌, ◌>>◌, assert,
}

-- A value of the SDK, known by what its `toXDR("base64")` returns: nothing where that throws.
pub record ScVal : Type 0 where
  pub base64 : Option Text

-- `TopicFilter` is a list of segments: "*", "**" or a value.
pub data Segment : Type 0 where
  any_one any_rest : Segment
  exactly : ScVal → Segment

pub data EventType : Type 0 where
  contract system : EventType

pub data FilterError : Type 0 where
  event_has_no_topics : FilterError
  failed_to_check_filter_segment : ScVal → ScVal → FilterError

-- The three private fields.
pub record EventFilter : Type 0 where
  pub type_of : Option EventType
  pub contract_ids : Option (List Text)
  pub topics : Option (List (List Segment))

-- The two calls of `toXDR`, compared, in the `try` block.
abbrev pub same_xdr : ScVal → ScVal → Result FilterError Bool
same_xdr v topic = elim v.base64 [
  | none ↦ err (failed_to_check_filter_segment v topic)
  | some a ↦ elim topic.base64 [
    | none ↦ err (failed_to_check_filter_segment v topic)
    | some b ↦ ok (text_eq a b)
  ]
]

abbrev pub if_same : Result FilterError Bool → Result FilterError Bool → Result FilterError Bool
if_same (ok true) rest = rest
if_same (ok false) rest = ok false
if_same (err e) rest = err e

-- The loop of `eventTopicsMatchFilterTopic`, from the segment that it has come to.
unfoldable pub match_from : List Segment → List ScVal → Result FilterError Bool
match_from filter [] = ok (leb (length filter) 0)
match_from [] (topic ∷ topics) = ok false
match_from (any_rest ∷ filter) (topic ∷ topics) = ok true
match_from (any_one ∷ filter) (topic ∷ topics) = match_from filter topics
match_from (exactly v ∷ filter) (topic ∷ topics) =
    let rest = match_from filter topics in if_same (same_xdr v topic) rest

unfoldable pub event_topics_match_filter_topic : List Segment → List ScVal → Result FilterError Bool
unfolding match_from
event_topics_match_filter_topic filter topics = do
  assert (ltb 0 (length topics)) event_has_no_topics
  match_from filter topics

abbrev pub or_match : Result FilterError Bool → Result FilterError Bool → Result FilterError Bool
or_match (ok true) rest = ok true
or_match (ok false) rest = rest
or_match (err e) rest = err e

-- The loop of `matchesTopics`.
unfoldable pub matches_any_topic : List (List Segment) → List ScVal → Result FilterError Bool
unfolding event_topics_match_filter_topic
matches_any_topic [] topics = ok false
matches_any_topic (filter ∷ filters) topics =
    let rest = matches_any_topic filters topics in
    or_match (event_topics_match_filter_topic filter topics) rest

abbrev pub matches_given_topics : List (List Segment) → List ScVal → Result FilterError Bool
matches_given_topics [] topics = ok true
matches_given_topics (filter ∷ filters) topics = matches_any_topic (filter ∷ filters) topics

unfoldable pub matches_topics : EventFilter → List ScVal → Result FilterError Bool
unfolding matches_any_topic
matches_topics f topics = elim f.topics [
  | none ↦ ok true
  | some filters ↦ matches_given_topics filters topics
]

abbrev pub same_type : EventType → EventType → Bool
same_type contract contract = true
same_type system system = true
same_type contract system = false
same_type system contract = false

unfoldable pub matches_type : EventFilter → EventType → Bool
matches_type f type_of = elim f.type_of [ none ↦ true | some wanted ↦ same_type wanted type_of ]

-- `contractIds.includes(contractId)`
unfoldable pub includes_id : List Text → Text → Bool
includes_id [] contract_id = false
includes_id (id ∷ ids) contract_id =
    let rest = includes_id ids contract_id in if text_eq id contract_id then true else rest

abbrev among : List Text → Text → Bool
among [] contract_id = true
among (id ∷ ids) contract_id = includes_id (id ∷ ids) contract_id

unfoldable pub matches_contract_id : EventFilter → Text → Bool
unfolding includes_id
matches_contract_id f contract_id = elim f.contract_ids [
  | none ↦ true
  | some ids ↦ among ids contract_id
]

-- `contractId === undefined || filter.matchesContractId(contractId)`
abbrev pub admits_contract : EventFilter → Option Text → Bool
admits_contract f none = true
admits_contract f (some contract_id) = matches_contract_id f contract_id

-- A round of the loop of `isIncludedInFilters`: whether it returns true.
unfoldable pub admits : EventFilter → Option Text → EventType → List ScVal → Result FilterError Bool
unfolding matches_type matches_contract_id matches_topics
admits f contract_id type_of topics =
    if not (matches_type f type_of)
    then ok false
    else if not (admits_contract f contract_id)
    then ok false
    else matches_topics f topics

unfoldable pub some_admits :
    List EventFilter → Option Text → EventType → List ScVal → Result FilterError Bool
unfolding admits
some_admits [] contract_id type_of topics = ok false
some_admits (f ∷ filters) contract_id type_of topics =
    let rest = some_admits filters contract_id type_of topics in
    or_match (admits f contract_id type_of topics) rest

-- `isIncludedInFilters`, called with a type and topics.
unfoldable pub is_included_in_filters :
    List EventFilter → Option Text → EventType → List ScVal → Result FilterError Bool
unfolding some_admits
is_included_in_filters [] contract_id type_of topics = ok true
is_included_in_filters (f ∷ filters) contract_id type_of topics =
    some_admits (f ∷ filters) contract_id type_of topics
