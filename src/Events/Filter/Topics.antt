-- ===== src/Events/Filter/Topics.antt =====
-- What a topic filter of core/event/event-filter/index.ts selects.
use colibri.Common.{
  ap, sym, suc, le→leb, lt→ltb, some, List, [], ◌∷◌, ◌++◌, map, Text, text_eq_refl, length, leb,
  arith, ok, ◌≡◌, refl,
}
use colibri.Events.Filter.{
  ScVal, Segment, any_rest, exactly, match_from, event_topics_match_filter_topic,
}

-- The values of some XDR, and the filter segments that ask for exactly these.
abbrev pub values_of : List Text → List ScVal
values_of = map (λ x. record { base64 = some x })

abbrev pub exact_filter : List Text → List Segment
exact_filter = map (λ x. exactly (record { base64 = some x }))

-- A filter of exact values and a last "**" asks, after these values, for one topic more.
match_from-exact_rest :
    (xs ys : List Text)
    → match_from (exact_filter xs ++ (any_rest ∷ [])) (values_of (xs ++ ys))
      ≡ ok (leb 1 (length ys))
unfolding match_from
match_from-exact_rest [] [] = refl
match_from-exact_rest [] (y ∷ ys) = ap ok (sym (le→leb 1 (suc (length ys)) (omega arith)))
match_from-exact_rest (x ∷ xs) ys = rw (text_eq_refl x, match_from-exact_rest xs ys)

-- A filter of at least one exact value and a last "**" accepts an event whose topics begin with these
-- values exactly when at least one topic follows them: here "**" does not match zero segments.
pub double_wildcard-matches_one :
    (x : Text) (xs ys : List Text)
    → event_topics_match_filter_topic
        (exact_filter (x ∷ xs) ++ (any_rest ∷ []))
        (values_of ((x ∷ xs) ++ ys))
      ≡ ok (leb 1 (length ys))
unfolding event_topics_match_filter_topic
double_wildcard-matches_one x xs ys = rw (
  lt→ltb 0 (length (values_of ((x ∷ xs) ++ ys))) (omega arith),
  text_eq_refl x,
  match_from-exact_rest xs ys,
)
