-- ===== src/Memoize/Getter.antt =====
-- core/common/decorators/memoize/index.ts, the memoized getter, which keeps one value on the instance;
-- OneKey says how it differs from a method: in nothing but its key.
pub mod OneKey
use colibri.Common.{
  ℕ, suc, ◌+◌, Bool, true, false, not, ◌||◌, Option, none, some, List, [], ◌∷◌, Result, ok, err,
  if◌then◌else◌, ◌==◌,
}
use colibri.Memoize.{
  Value, promise, caught, plain, Options, resolve_option, or_default, is_some, is_expired, stored,
}

-- A timeout of the getter, and when it is due.
pub record SlotTimer : Type 0 where
  pub id : ℕ
  pub due : ℕ

-- The three symbols of an instance, the timeouts that are set and the promises with a `.catch`.
pub record Slot (V : Type 0) : Type 0 where
  pub cache : Option (Value V)
  pub timestamp : Option ℕ
  pub timer : Option ℕ
  pub next_timer : ℕ
  pub live : List SlotTimer
  pub watched : List ℕ

unfoldable pub clear_slot_timeout : ℕ → List SlotTimer → List SlotTimer
clear_slot_timeout id [] = []
clear_slot_timeout id (t ∷ live) =
    let rest = clear_slot_timeout id live in if t.id == id then rest else t ∷ rest

module _ {V : Type 0} where
  abbrev pub stop_slot_timer : Option ℕ → Slot V → Slot V
  stop_slot_timer none s = s
  stop_slot_timer (some id) s = record s { timer = none; live = clear_slot_timeout id s.live }

  abbrev pub forget_slot : Slot V → Slot V
  forget_slot s = record s { cache = none; timestamp = none }

  unfoldable pub clear_cache : Slot V → Slot V
  clear_cache s = forget_slot (stop_slot_timer s.timer s)

  abbrev pub watch_slot : Bool → Value V → List ℕ → List ℕ
  watch_slot true v watched = watched
  watch_slot false (plain v) watched = watched
  watch_slot false (promise n) watched = n ∷ watched
  watch_slot false (caught n) watched = n ∷ watched

  abbrev pub store_slot : ℕ → Bool → Value V → Slot V → Slot V
  store_slot now cache_rejected v s = record s {
    cache = some (stored cache_rejected v);
    timestamp = some now;
    watched = watch_slot cache_rejected v s.watched;
  }

  abbrev pub set_slot_timer : ℕ → Slot V → Slot V
  set_slot_timer due s = record s {
    timer = some s.next_timer;
    next_timer = suc s.next_timer;
    live = record { id = s.next_timer; due = due } ∷ s.live;
  }

  abbrev pub schedule_slot : ℕ → Option ℕ → Bool → Slot V → Slot V
  schedule_slot now none evict s = s
  schedule_slot now (some ttl) evict s = if evict then set_slot_timer (now + ttl) s else s

module _ {Self V E : Type 0} (options : Options Self (Unit {0}))
    (original : Self → Self × Result E (Value V)) where
  abbrev pub keep_slot :
      ℕ
      → Option ℕ
      → Slot V
      → Self × Result E (Value V)
      → (Self × Slot V) × Result E (Option (Value V))
  keep_slot now ttl s (self, err e) = ((self, s), err e)
  keep_slot now ttl s (self, ok v) =
      let rejected = or_default (resolve_option options.cache_rejected self tt) false in
      let evict = or_default (resolve_option options.evict_on_expiry self tt) false in
      let s' = schedule_slot now ttl evict (store_slot now rejected v s) in
      ((self, s'), ok s'.cache)

  abbrev pub uncached_slot :
      Slot V → Self × Result E (Value V) → (Self × Slot V) × Result E (Option (Value V))
  uncached_slot s (self, err e) = ((self, s), err e)
  uncached_slot s (self, ok v) = ((self, s), ok (some v))

  unfoldable pub get : Self → ℕ → Slot V → (Self × Slot V) × Result E (Option (Value V))
  get self now s =
      let ttl = resolve_option options.ttl self tt in
      if not (or_default (resolve_option options.enabled self tt) true)
      then uncached_slot (clear_cache s) (original self)
      else if not (is_some s.cache) || is_expired now ttl s.timestamp
      then keep_slot now ttl (clear_cache s) (original self)
      else ((self, s), ok s.cache)
