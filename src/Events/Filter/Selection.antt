-- ===== src/Events/Filter/Selection.antt =====
-- Which events the filters of core/event/event-filter/index.ts and `isIncludedInFilters` let through.
use mathlib.Core.List.{Memᴰ}
use colibri.Common.{
  Bool, true, false, not, Option, none, some, List, [], ◌∷◌, Text, Result, ok, err, ◌≡◌, refl, ◌↔◌,
  ◌⊎◌, inl, inr, arith, if◌then◌else◌, bind-eq-ok, assert, ltb, length,
}
use colibri.Events.Filter.{
  ScVal, Segment, any_one, any_rest, exactly, EventType, EventFilter, FilterError, same_xdr,
  if_same, or_match, match_from, event_topics_match_filter_topic, matches_any_topic, matches_topics,
  matches_type, admits_contract, admits, some_admits, is_included_in_filters,
}

-- A topic filter and the topics that it selects: a segment for each topic, up to a "**", which takes
-- all that are left if there is at least one.
pub data Selects : List Segment → List ScVal → Type 0 where
  done : Selects [] []
  rest :
      {filter : List Segment} {t : ScVal} {ts : List ScVal} → Selects (any_rest ∷ filter) (t ∷ ts)
  one :
      {filter : List Segment} {t : ScVal} {ts : List ScVal}
      → Selects filter ts
      → Selects (any_one ∷ filter) (t ∷ ts)
  same :
      {filter : List Segment} {v t : ScVal} {ts : List ScVal}
      → same_xdr v t ≡ ok true
      → Selects filter ts
      → Selects (exactly v ∷ filter) (t ∷ ts)

if_same-true :
    (first second : Result FilterError Bool)
    → if_same first second ≡ ok true
    → (first ≡ ok true) × (second ≡ ok true)
if_same-true (ok true) second h = (refl, h)
if_same-true (ok false) second h = absurd (cc)
if_same-true (err e) second h = absurd (cc)

match_from-Selects :
    (filter : List Segment) (topics : List ScVal)
    → match_from filter topics ≡ ok true
    → Selects filter topics
unfolding match_from
match_from-Selects [] [] h = Selects.done
match_from-Selects (s ∷ filter) [] h = absurd (ground arith)
match_from-Selects [] (t ∷ ts) h = absurd (cc)
match_from-Selects (any_rest ∷ filter) (t ∷ ts) h = Selects.rest
match_from-Selects (any_one ∷ filter) (t ∷ ts) h = Selects.one (match_from-Selects filter ts h)
match_from-Selects (exactly v ∷ filter) (t ∷ ts) h =
    let (equal, later) = if_same-true (same_xdr v t) (match_from filter ts) h in
    Selects.same equal (match_from-Selects filter ts later)

Selects-match_from :
    {filter : List Segment} {topics : List ScVal}
    → Selects filter topics
    → match_from filter topics ≡ ok true
unfolding match_from
Selects-match_from Selects.done = refl
Selects-match_from Selects.rest = refl
Selects-match_from (Selects.one s) = Selects-match_from s
Selects-match_from (Selects.same e s) = rw e (Selects-match_from s)

-- A filter asks nothing of the topics, or has a topic filter that selects them.
abbrev pub TopicsAdmitted : Option (List (List Segment)) → List ScVal → Type 0
TopicsAdmitted none topics = Unit {0}
TopicsAdmitted (some []) topics = Unit {0}
TopicsAdmitted (some (first ∷ others)) topics =
    (filter : List Segment) × Memᴰ filter (first ∷ others) × Selects filter topics

abbrev pub Admitted : EventFilter → Option Text → EventType → List ScVal → Type 0
Admitted f contract_id type_of topics =
    (matches_type f type_of ≡ true)
    × (admits_contract f contract_id ≡ true)
    × TopicsAdmitted f.topics topics

or_match-true :
    (first second : Result FilterError Bool)
    → or_match first second ≡ ok true
    → (first ≡ ok true) ⊎ (second ≡ ok true)
or_match-true (ok true) second h = inl refl
or_match-true (ok false) second h = inr h
or_match-true (err e) second h = absurd (cc)

topic_filter-Selects :
    (filter : List Segment) (topics : List ScVal)
    → event_topics_match_filter_topic filter topics ≡ ok true
    → Selects filter topics
unfolding event_topics_match_filter_topic
topic_filter-Selects filter [] h = absurd (cc)
topic_filter-Selects filter (t ∷ ts) h =
    match_from-Selects filter (t ∷ ts)
      (bind-eq-ok (assert (ltb 0 (length (t ∷ ts))) FilterError.event_has_no_topics)
        (λ _. match_from filter (t ∷ ts)) h).2

any_topic-Selects :
    (filters : List (List Segment)) (topics : List ScVal)
    → matches_any_topic filters topics ≡ ok true
    → (filter : List Segment) × Memᴰ filter filters × Selects filter topics
unfolding matches_any_topic
any_topic-Selects [] topics h = absurd (cc)
any_topic-Selects (first ∷ filters) topics h =
    elim (or_match-true (event_topics_match_filter_topic first topics)
      (matches_any_topic filters topics) h) [
        | inl now ↦ (first, Memᴰ.head refl, topic_filter-Selects first topics now)
        | inr later ↦
            let (filter, member, selects) = any_topic-Selects filters topics later in
            (filter, Memᴰ.tail member, selects)
      ]

given-TopicsAdmitted :
    (given : Option (List (List Segment))) (f : EventFilter) (topics : List ScVal)
    → f.topics ≡ given
    → matches_topics f topics ≡ ok true
    → TopicsAdmitted given topics
unfolding matches_topics
given-TopicsAdmitted none f topics e h = tt
given-TopicsAdmitted (some []) f topics e h = tt
given-TopicsAdmitted (some (first ∷ filters)) f topics e h =
    any_topic-Selects (first ∷ filters) topics (let h' = rw e at h in h')

admits-Admitted :
    (f : EventFilter) (contract_id : Option Text) (type_of : EventType) (topics : List ScVal)
    → admits f contract_id type_of topics ≡ ok true
    → Admitted f contract_id type_of topics
unfolding admits
admits-Admitted f contract_id type_of topics h =
    let (kind, contract, chosen) =
      both (matches_type f type_of) (admits_contract f contract_id) (matches_topics f topics) h in
    (kind, contract, given-TopicsAdmitted f.topics f topics refl chosen)
  where
    both :
        (a b : Bool) (r : Result FilterError Bool)
        → (if not a then ok false else if not b then ok false else r) ≡ ok true
        → (a ≡ true) × (b ≡ true) × (r ≡ ok true)
    both true true r h = (refl, refl, h)
    both true false r h = absurd (cc)
    both false b r h = absurd (cc)

some_admits-Admitted :
    (filters : List EventFilter) (contract_id : Option Text) (type_of : EventType)
    (topics : List ScVal)
    → some_admits filters contract_id type_of topics ≡ ok true
    → (f : EventFilter) × Memᴰ f filters × Admitted f contract_id type_of topics
unfolding some_admits
some_admits-Admitted [] contract_id type_of topics h = absurd (cc)
some_admits-Admitted (f ∷ filters) contract_id type_of topics h =
    elim (or_match-true (admits f contract_id type_of topics)
      (some_admits filters contract_id type_of topics) h) [
        | inl now ↦ (f, Memᴰ.head refl, admits-Admitted f contract_id type_of topics now)
        | inr later ↦
            let (g, member, admitted) =
              some_admits-Admitted filters contract_id type_of topics later in
            (g, Memᴰ.tail member, admitted)
      ]

-- Where there are filters, an event that is included has one among them of its type, that admits its
-- contract, and that asks nothing of its topics or has a topic filter that selects them.
pub is_included_in_filters-Admitted :
    (first : EventFilter) (others : List EventFilter) (contract_id : Option Text)
    (type_of : EventType) (topics : List ScVal)
    → is_included_in_filters (first ∷ others) contract_id type_of topics ≡ ok true
    → (f : EventFilter) × Memᴰ f (first ∷ others) × Admitted f contract_id type_of topics
unfolding is_included_in_filters
is_included_in_filters-Admitted first others contract_id type_of topics h =
    some_admits-Admitted (first ∷ others) contract_id type_of topics h

-- The loop over the segments of a topic filter ends with true exactly when the filter selects the
-- topics.
match_from-Selects_iff :
    (filter : List Segment) (topics : List ScVal)
    → (match_from filter topics ≡ ok true) ↔ Selects filter topics
match_from-Selects_iff filter topics = (match_from-Selects filter topics, Selects-match_from)
