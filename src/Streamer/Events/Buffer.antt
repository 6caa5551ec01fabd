-- ===== src/Streamer/Events/Buffer.antt =====
-- The size of the list of recent ids of rpc-streamer/src/variants/event/index.ts.
use colibri.Common.{
  ℕ, ◌≤◌, Bool, true, false, Option, List, [], ◌∷◌, ◌++◌, Text, text_eq, text_eq_iff, if◌then◌else◌,
  ltb, length, length-append, drop, Result, ok, err, ◌≡◌, refl, sym, arith, Bool-cases, inl, inr,
}
use colibri.Events.Filter.{includes_id}
use colibri.Streamer.Effect.{Thrown, State, continue_with}
use colibri.Streamer.Events.{
  EventWorld, EventSource, remember, with_outer, remember_id, ingest_live_events,
}
use colibri.Streamer.Events.Dedupe.{ingest_live_events-fresh}

-- The ids of a list are distinct.
unfoldable pub DistinctIds : List Text → Type 0
DistinctIds [] = Unit
DistinctIds (id ∷ ids) = (includes_id ids id ≡ false) × DistinctIds ids

abbrev pub IsBuffer : List Text → Type 0
IsBuffer ids = (length ids ≤ 25) × DistinctIds ids

neither : (b c : Bool) → (if b then true else c) ≡ false → (b ≡ false) × (c ≡ false)
neither true c h = (absurd (cc), absurd (cc))
neither false c h = (refl, h)

text_eq-swap : (a b : Text) → text_eq a b ≡ false → text_eq b a ≡ false
text_eq-swap a b h = elim (Bool-cases (text_eq b a)) [
  | inl e ↦
      let same : a ≡ b = sym ((text_eq_iff b a).0 e) in
      let yes : text_eq a b ≡ true = (text_eq_iff a b).1 same in absurd (cc)
  | inr e ↦ e
]

includes_id-append :
    (ids : List Text) (a b : Text)
    → includes_id ids b ≡ false
    → text_eq a b ≡ false
    → includes_id (ids ++ (a ∷ [])) b ≡ false
unfolding includes_id
includes_id-append [] a b h ne = rw ne refl
includes_id-append (id ∷ ids) a b h ne =
    let (other, rest) = neither (text_eq id b) (includes_id ids b) h in
    rw other (includes_id-append ids a b rest ne)

append-DistinctIds :
    (ids : List Text) (id : Text)
    → DistinctIds ids
    → includes_id ids id ≡ false
    → DistinctIds (ids ++ (id ∷ []))
unfolding DistinctIds includes_id
append-DistinctIds [] id d h = (refl, tt)
append-DistinctIds (x ∷ ids) id (fresh, d) h =
    let (other, rest) = neither (text_eq x id) (includes_id ids id) h in
    (includes_id-append ids id x fresh (text_eq-swap x id other), append-DistinctIds ids id d rest)

trim-IsBuffer :
    (added : List Text)
    → length added ≤ 26
    → DistinctIds added
    → IsBuffer (if ltb 25 (length added) then drop 1 added else added)
unfolding DistinctIds
trim-IsBuffer [] len d = (omega arith, tt)
trim-IsBuffer (x ∷ xs) len (fresh, d) = elim (Bool-cases (ltb 25 (length (x ∷ xs)))) [
  | inl long ↦ rw long (omega arith, d)
  | inr short ↦ rw short (ground arith, (fresh, d))
]

remember-IsBuffer :
    (id : Text) (ids : List Text)
    → IsBuffer ids
    → includes_id ids id ≡ false
    → IsBuffer (remember id ids)
unfolding remember
remember-IsBuffer id ids (len, d) h =
    trim-IsBuffer (ids ++ (id ∷ [])) (rw (length-append ids (id ∷ [])) (omega arith))
      (append-DistinctIds ids id d h)

module _ {W : Type 0} where
  -- The ids of the list of a state.
  abbrev pub HasBuffer : State (EventWorld W) → Type 0
  HasBuffer st = IsBuffer ((st.world).recently_checked)

  remembered-HasBuffer :
      (ids : List Text) (id : Text) (r : State W × Result Thrown (Unit {0}))
      → IsBuffer ids
      → includes_id ids id ≡ false
      → HasBuffer ((continue_with (λ _. remember_id id) (with_outer ids (r.0), r.1)).0)
  remembered-HasBuffer ids id (st, ok _) b h = remember-IsBuffer id ids b h
  remembered-HasBuffer ids id (st, err e) b h = b

  -- At the end of a live ingestion of a ledger, also where it throws, the list of recent ids holds at
  -- most 25 ids, all of them distinct, if it does so at its start.
  pub ingest_live_events-HasBuffer :
      (s : EventSource W) (stop_ledger : Option ℕ) (fuel sequence : ℕ) (st : State (EventWorld W))
      → HasBuffer st
      → HasBuffer ((ingest_live_events fuel s sequence stop_ledger st).0)
  ingest_live_events-HasBuffer s stop_ledger fuel sequence st b =
      ingest_live_events-fresh HasBuffer s stop_ledger
        (record {
          fetch = λ request st b. b;
          wait = λ st b. b;
          deliver = λ e st h fresh b. remembered-HasBuffer _ e.id _ b fresh;
        })
        fuel sequence st b
