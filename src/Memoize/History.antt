-- ===== src/Memoize/History.antt =====
-- Any history of a memo of core/common/decorators/memoize/index.ts: calls, timeouts that fire and
-- promises that are rejected, in any order.
use colibri.Common.{
  ℕ, ◌≡◌, refl, sym, ap, ◌∙◌, Bool, true, false, Option, none, some, List, [], ◌∷◌, Text, Result,
  All, if◌then◌else◌, ◌==◌, Bool-cases, Option-cases, inl, inr, subst,
}
use colibri.Memoize.{
  Value, Options, Timer, Memo, empty_memo, call, clear_timeout, find_timer, fire, clear_watched,
  reject,
}
use colibri.Memoize.Entries.{Current, Ordered}
use colibri.Memoize.Steps.{clear_cache_entry-Ordered}
use colibri.Memoize.Refinement.{call-Implements}

-- A call at a time, a timeout that fires, or a promise that is rejected.
pub data Event (Args : Type 0) : Type 0 where
  called : Args → ℕ → Event Args
  fired rejected : ℕ → Event Args

module _ {Self Args V E : Type 0} (options : Options Self Args) (key_fn : Args → Text)
    (original : Self → Args → Self × Result E (Value V)) where
  unfoldable pub step : Event Args → Self × Memo V → Self × Memo V
  step (called args now) (self, m) = (call options key_fn original self args now m).0
  step (fired id) (self, m) = (self, fire id m)
  step (rejected n) (self, m) = (self, reject n m)

  unfoldable pub run : List (Event Args) → Self × Memo V → Self × Memo V
  run [] st = st
  run (e ∷ events) st = run events (step e st)

All-clear_timeout :
    (P : Timer → Type 0) (id : ℕ) (live : List Timer) → All P live → All P (clear_timeout id live)
unfolding clear_timeout
All-clear_timeout P id [] h = tt
All-clear_timeout P id (t ∷ live) h = elim (Bool-cases (t.id == id)) [
  | inl same ↦ rw same (All-clear_timeout P id live h.1)
  | inr other ↦ rw other (h.0, All-clear_timeout P id live h.1)
]

module _ {V : Type 0} where
  fire-Ordered : (id : ℕ) (m : Memo V) → Ordered m → Ordered (fire id m)
  unfolding fire
  fire-Ordered id m w =
      let w' : Ordered (record m { live = clear_timeout id m.live }) = record {
        cache = w.cache;
        timestamps = w.timestamps;
        timers = w.timers;
        dates = w.dates;
        current = All-clear_timeout (Current m.timers m.timestamps) id m.live w.current;
      } in
      elim (Option-cases (find_timer id m.live)) [
        | inl gone ↦ rw (fire, gone) w'
        | inr (key, set) ↦ rw (fire, set) (clear_cache_entry-Ordered key _ w')
      ]

  clear_watched-Ordered :
      (n : ℕ) (watched : List (ℕ × Text)) (m : Memo V)
      → Ordered m
      → Ordered (clear_watched n watched m)
  unfolding clear_watched
  clear_watched-Ordered n [] m w = w
  clear_watched-Ordered n ((p, key) ∷ watched) m w = elim (Bool-cases (p == n)) [
    | inl same ↦ rw same (clear_watched-Ordered n watched _ (clear_cache_entry-Ordered key m w))
    | inr other ↦ rw other (clear_watched-Ordered n watched m w)
  ]

empty_memo-Ordered : {V : Type 0} → Ordered (empty_memo {V = V})
unfolding colibri.Common.map_get
empty_memo-Ordered = record {
  cache = tt;
  timestamps = tt;
  timers = tt;
  dates = λ key. refl;
  current = tt;
}

module _ {Self Args V E : Type 0} (options : Options Self Args) (key_fn : Args → Text)
    (original : Self → Args → Self × Result E (Value V)) where
  step-Ordered :
      (e : Event Args) (st : Self × Memo V)
      → Ordered st.1
      → Ordered (step options key_fn original e st).1
  unfolding step reject
  step-Ordered (called args now) (self, m) w =
      (call-Implements options key_fn original self args now m w).ordered
  step-Ordered (fired id) (self, m) w = fire-Ordered id m w
  step-Ordered (rejected n) (self, m) w = clear_watched-Ordered n m.watched m w

  run-keeps :
      (events : List (Event Args)) (st : Self × Memo V)
      → Ordered st.1
      → Ordered (run options key_fn original events st).1
  unfolding run
  run-keeps [] st w = w
  run-keeps (e ∷ events) st w =
      run-keeps events (step options key_fn original e st) (step-Ordered e st w)

-- After any history from an empty memo, no key is twice in a map, a key has a value exactly where it has
-- a timestamp, and each timeout that is set is the one that its key has in the map and is due its ttl
-- after the entry that the key has now was stored: no timeout of an entry that was replaced is left.
pub run-Ordered :
    {Self Args V E : Type 0} (options : Options Self Args) (key_fn : Args → Text)
    (original : Self → Args → Self × Result E (Value V)) (events : List (Event Args)) (self : Self)
    → Ordered (run options key_fn original events (self, empty_memo)).1
run-Ordered options key_fn original events self =
    run-keeps options key_fn original events (self, empty_memo) empty_memo-Ordered
