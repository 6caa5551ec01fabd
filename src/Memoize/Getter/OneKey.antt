-- ===== src/Memoize/Getter/OneKey.antt =====
-- The memoized getter of core/common/decorators/memoize/index.ts is a memoized method with one key.
use colibri.Common.{
  ℕ, ◌≡◌, refl, sym, ap, ◌∙◌, Bool, true, false, Option, none, some, List, [], ◌∷◌, map, Text,
  text_eq_refl, Result, ok, err, if◌then◌else◌, ◌==◌, map_get, map_set, map_delete, Bool-cases, inl,
  inr,
}
use colibri.Memoize.{
  Value, promise, caught, plain, Options, Timer, Memo, resolve_option, or_default, clear_timeout,
  forget, stop_timer, clear_cache_entry, watch, store, schedule, keep_result, uncached, call,
}
use colibri.Memoize.Getter.{
  SlotTimer, Slot, clear_slot_timeout, watch_slot, stop_slot_timer, forget_slot, clear_cache,
  store_slot, schedule_slot, keep_slot, uncached_slot, get,
}

-- A map with the one key, where there is a value.
abbrev pub one : {A : Type 0} → Text → Option A → List (Text × A)
one key none = []
one key (some a) = (key, a) ∷ []

abbrev pub as_timer : Text → SlotTimer → Timer
as_timer key t = record { id = t.id; key = key; due = t.due }

abbrev pub as_memo : {V : Type 0} → Text → Slot V → Memo V
as_memo key s = record {
  cache = one key s.cache;
  timestamps = one key s.timestamp;
  timers = one key s.timer;
  next_timer = s.next_timer;
  live = map (as_timer key) s.live;
  watched = map (λ n. (n, key)) s.watched;
}

abbrev pub as_method_state : {Self V R : Type 0} → Text → (Self × Slot V) × R → (Self × Memo V) × R
as_method_state key ((self, s), r) = ((self, as_memo key s), r)

module _ (key : Text) where
  get-one : {A : Type 0} (o : Option A) → map_get key (one key o) ≡ o
  unfolding map_get
  get-one none = refl
  get-one (some a) = rw (text_eq_refl key) refl

  delete-one : {A : Type 0} (o : Option A) → map_delete key (one key o) ≡ []
  unfolding map_delete
  delete-one none = refl
  delete-one (some a) = rw (text_eq_refl key) refl

  clear-live :
      (id : ℕ) (live : List SlotTimer)
      → clear_timeout id (map (as_timer key) live) ≡ map (as_timer key) (clear_slot_timeout id live)
  unfolding clear_timeout clear_slot_timeout
  clear-live id [] = refl
  clear-live id (t ∷ live) = elim (Bool-cases (t.id == id)) [
    | inl same ↦ rw same (clear-live id live)
    | inr other ↦ rw other (ap (λ r. as_timer key t ∷ r) (clear-live id live))
  ]

abbrev empty_slot : {V : Type 0} → ℕ → List SlotTimer → List ℕ → Slot V
empty_slot next live watched = record {
  cache = none;
  timestamp = none;
  timer = none;
  next_timer = next;
  live = live;
  watched = watched;
}

module _ {V : Type 0} (key : Text) where
  clear-at :
      (o : Option ℕ) (s : Slot V)
      → forget key (stop_timer key o (as_memo key s))
        ≡ as_memo key (forget_slot (stop_slot_timer o s))
  clear-at none s = rw (delete-one key s.cache, delete-one key s.timestamp) refl
  clear-at (some id) s =
      rw
        (
          delete-one key s.cache,
          delete-one key s.timestamp,
          delete-one key s.timer,
          clear-live key id s.live,
        )
        refl

  clear-as_memo : (s : Slot V) → clear_cache_entry key (as_memo key s) ≡ as_memo key (clear_cache s)
  unfolding clear_cache_entry clear_cache
  clear-as_memo s =
      ap (λ o. forget key (stop_timer key o (as_memo key s))) (get-one key s.timer)
      ∙ clear-at s.timer s

  watch-as_memo :
      (rejected : Bool) (v : Value V) (watched : List ℕ)
      → watch rejected key v (map (λ n. (n, key)) watched)
        ≡ map (λ n. (n, key)) (watch_slot rejected v watched)
  watch-as_memo true v watched = refl
  watch-as_memo false (plain v) watched = refl
  watch-as_memo false (promise n) watched = refl
  watch-as_memo false (caught n) watched = refl

  -- Storing in a slot that is empty.
  schedule-as_memo :
      (now : ℕ) (rejected : Bool) (v : Value V) (ttl : Option ℕ) (evict : Bool) (next : ℕ)
      (live : List SlotTimer) (watched : List ℕ)
      → schedule key now ttl evict
          (store key now rejected v (as_memo key (empty_slot next live watched)))
        ≡ as_memo key
            (schedule_slot now ttl evict (store_slot now rejected v (empty_slot next live watched)))
  unfolding schedule store map_set
  schedule-as_memo now rejected v none evict next live watched =
      rw (watch-as_memo rejected v watched) refl
  schedule-as_memo now rejected v (some ttl) true next live watched =
      rw (watch-as_memo rejected v watched) refl
  schedule-as_memo now rejected v (some ttl) false next live watched =
      rw (watch-as_memo rejected v watched) refl

module _ {Self V E : Type 0} (options : Options Self (Unit {0}))
    (original : Self → Self × Result E (Value V)) (key : Text) where
  uncached-as_memo :
      (s : Slot V) (out : Self × Result E (Value V))
      → uncached options (λ u. key) (λ self u. original self) (as_memo key s) out
        ≡ as_method_state key (uncached_slot options original s out)
  uncached-as_memo s (self, ok v) = refl
  uncached-as_memo s (self, err e) = refl

  keep-as_memo :
      (now : ℕ) (ttl : Option ℕ) (next : ℕ) (live : List SlotTimer) (watched : List ℕ)
      (out : Self × Result E (Value V))
      → keep_result options
          (λ u. key)
          (λ self u. original self)
          tt
          now
          ttl
          (as_memo key (empty_slot next live watched))
          out
        ≡ as_method_state key
            (keep_slot options original now ttl (empty_slot next live watched) out)
  keep-as_memo now ttl next live watched (self, err e) = refl
  keep-as_memo now ttl next live watched (self, ok v) =
      let rejected = or_default (resolve_option options.cache_rejected self tt) false in
      let evict = or_default (resolve_option options.evict_on_expiry self tt) false in
      rw (schedule-as_memo key now rejected v ttl evict next live watched) (rw (get-one key _) refl)

  empty-at :
      (o : Option ℕ) (s : Slot V)
      → s.timer ≡ o
      → forget_slot (stop_slot_timer o s)
        ≡ empty_slot
            (stop_slot_timer o s).next_timer
            (stop_slot_timer o s).live
            (stop_slot_timer o s).watched
  empty-at none s h = rw h refl
  empty-at (some id) s h = refl

  keep-clear :
      (now : ℕ) (ttl : Option ℕ) (s : Slot V) (out : Self × Result E (Value V))
      → keep_result options
          (λ u. key)
          (λ self u. original self)
          tt
          now
          ttl
          (clear_cache_entry key (as_memo key s))
          out
        ≡ as_method_state key (keep_slot options original now ttl (clear_cache s) out)
  unfolding clear_cache
  keep-clear now ttl s out =
      let cleared = stop_slot_timer s.timer s in
      ap (λ m. keep_result options (λ u. key) (λ self u. original self) tt now ttl m out)
        (clear-as_memo key s ∙ ap (as_memo key) (empty-at s.timer s refl))
      ∙ keep-as_memo now ttl cleared.next_timer cleared.live cleared.watched out
      ∙ ap (λ x. as_method_state key (keep_slot options original now ttl x out))
          (sym (empty-at s.timer s refl))

  cached-as_memo :
      (self : Self) (now : ℕ) (ttl : Option ℕ) (s : Slot V) (test : Bool)
      → (if test
          then keep_result options
              (λ u. key)
              (λ self u. original self)
              tt
              now
              ttl
              (clear_cache_entry key (as_memo key s))
              (original self)
          else ((self, as_memo key s), ok s.cache))
        ≡ as_method_state key (
            if test
            then keep_slot options original now ttl (clear_cache s) (original self)
            else ((self, s), ok s.cache))
  cached-as_memo self now ttl s true = keep-clear now ttl s (original self)
  cached-as_memo self now ttl s false = refl

-- The memoized getter is the memoized method without arguments and with one key: on a slot and on the
-- maps that hold the slot under that key, the two give the same instance and the same result, and what
-- they leave corresponds again, with the same timeouts set and the same promises watched.
get-call :
    {Self V E : Type 0} (options : Options Self (Unit {0}))
    (original : Self → Self × Result E (Value V)) (key : Text) (self : Self) (now : ℕ) (s : Slot V)
    → call options (λ u. key) (λ self u. original self) self tt now (as_memo key s)
      ≡ as_method_state key (get options original self now s)
unfolding call get
get-call options original key self now s =
    elim (Bool-cases (or_default (resolve_option options.enabled self tt) true)) [
      | inl on ↦
          rw (on, get-one key s.cache, get-one key s.timestamp)
            (cached-as_memo options original key self now (resolve_option options.ttl self tt) s _)
      | inr off ↦
          rw (off, clear-as_memo key s)
            (uncached-as_memo options original key (clear_cache s) (original self))
    ]
