-- ===== src/Memoize/Tests.antt =====
-- A method whose first result is a promise, run with a time to live of 100 ms, and instances of the
-- theorems.
use colibri.Common.{
  ℕ, suc, ◌≡◌, refl, true, none, some, List, [], ◌∷◌, Text, codes, text_eq, Result, ok, ◌==◌,
  if◌then◌else◌, map_get, map_set, map_delete,
}
use colibri.Memoize.{
  Value, plain, promise, caught, Options, fixed, resolver, Memo, empty_memo, call, clear_timeout,
  clear_cache_entry, store, schedule, find_timer, fire, clear_watched, reject,
}
use colibri.Memoize.Entries.{entry, Ordered}
use colibri.Memoize.Refinement.{spec_call, Implements, call-Implements}
use colibri.Memoize.History.{Event, called, rejected, step, run, run-Ordered}
use colibri.Memoize.Getter.{Slot}

abbrev options : Options ℕ Text
options = record {
  enabled = fixed none;
  ttl = resolver (λ count args. some 100);
  cache_rejected = fixed none;
  evict_on_expiry = fixed (some true);
}

-- The instance counts the calls.
abbrev original : ℕ → Text → ℕ × Result ℕ (Value ℕ)
original count args = (suc count, ok (if count == 0 then promise 7 else plain count))

abbrev key_fn : Text → Text
key_fn args = args

abbrev history : List (Event Text)
history = called (codes "a") 1000 ∷ called (codes "a") 1050 ∷ called (codes "a") 1200 ∷ []

runs : Unit {0}
unfolding run step call clear_cache_entry store schedule fire find_timer clear_timeout reject
    clear_watched map_get map_set map_delete text_eq
runs = tt

-- The second call is served from the cache, and the third one runs the method again.
run-history : (run options key_fn original history (0, empty_memo)).0 ≡ 2
unfolding runs
run-history = refl

-- The promise of the first call is rejected after the third call has stored a number, which goes too.
run-stale_rejection :
    (run options key_fn original
      (rejected 7 ∷ [])
      (run options key_fn original history (0, empty_memo))).1.cache
    ≡ []
unfolding runs
run-stale_rejection = refl

abbrev after : Memo ℕ
after = (run options key_fn original history (0, empty_memo)).1

run-Ordered_example : Ordered after
run-Ordered_example = run-Ordered options key_fn original history 0

call-Implements_example :
    Implements
      (call options key_fn original 2 (codes "a") 1290 after)
      (spec_call options key_fn original 2 (codes "a") 1290 (entry after))
call-Implements_example =
    call-Implements options key_fn original 2 (codes "a") 1290 after
      (run-Ordered options key_fn original history 0)

abbrev getter_options : Options ℕ (Unit {0})
getter_options = record {
  enabled = fixed none;
  ttl = fixed (some 100);
  cache_rejected = fixed none;
  evict_on_expiry = fixed (some true);
}

abbrev slot : Slot ℕ
slot = record {
  cache = some (caught 7);
  timestamp = some 1000;
  timer = some 0;
  next_timer = 1;
  live = record { id = 0; due = 1100 } ∷ [];
  watched = 7 ∷ [];
}
