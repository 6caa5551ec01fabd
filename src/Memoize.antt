-- ===== src/Memoize.antt =====
-- core/common/decorators/memoize/index.ts: the memoized method, its cache with expiry, and what happens
-- between two calls, a timer that fires and a promise that is rejected. Getter is the memoized getter.
pub mod Steps
pub mod Entries
pub mod Getter
mod Tests
pub mod Refinement
pub mod History
use colibri.Common.{
  ℕ, suc, ◌+◌, ◌-◌, Bool, true, false, ◌||◌, not, Option, none, some, List, [], ◌∷◌, ◌++◌, Text,
  Result, ok, err, if◌then◌else◌, ltb, ◌==◌, map_get, map_set, map_delete,
}

-- What a method returns: a value, a promise that is known by a number, or the promise that `.catch`
-- makes of one.
pub data Value (V : Type 0) : Type 0 where
  plain : V → Value V
  promise caught : ℕ → Value V

-- An option: a value that may be missing, or a function of the instance and the arguments.
pub data Resolver (Self Args A : Type 0) : Type 0 where
  fixed : Option A → Resolver Self Args A
  resolver : (Self → Args → Option A) → Resolver Self Args A

abbrev pub resolve_option : {Self Args A : Type 0} → Resolver Self Args A → Self → Args → Option A
resolve_option (fixed value) self args = value
resolve_option (resolver f) self args = f self args

pub record Options (Self Args : Type 0) : Type 0 where
  pub enabled : Resolver Self Args Bool
  pub ttl : Resolver Self Args ℕ
  pub cache_rejected : Resolver Self Args Bool
  pub evict_on_expiry : Resolver Self Args Bool

-- A timeout that is set, with the key that it clears and when it is due.
pub record Timer : Type 0 where
  pub id : ℕ
  pub key : Text
  pub due : ℕ

-- The three maps of an instance, the timeouts that are set, and the promises that have a `.catch`
-- attached, with the key that it clears.
pub record Memo (V : Type 0) : Type 0 where
  pub cache : List (Text × Value V)
  pub timestamps : List (Text × ℕ)
  pub timers : List (Text × ℕ)
  pub next_timer : ℕ
  pub live : List Timer
  pub watched : List (ℕ × Text)

abbrev pub empty_memo : {V : Type 0} → Memo V
empty_memo = record {
  cache = [];
  timestamps = [];
  timers = [];
  next_timer = 0;
  live = [];
  watched = [];
}

abbrev pub or_default {ℓ} : {A : Type ℓ} → Option A → A → A
or_default none a = a
or_default (some b) a = b

abbrev pub is_some {ℓ} : {A : Type ℓ} → Option A → Bool
is_some none = false
is_some (some a) = true

-- `clearTimeout(id)`
unfoldable pub clear_timeout : ℕ → List Timer → List Timer
clear_timeout id [] = []
clear_timeout id (t ∷ live) =
    let rest = clear_timeout id live in if t.id == id then rest else t ∷ rest

-- `resolvedTtl !== undefined && cachedAt !== undefined && now - cachedAt > resolvedTtl`
abbrev pub is_expired : ℕ → Option ℕ → Option ℕ → Bool
is_expired now none cached_at = false
is_expired now (some ttl) none = false
is_expired now (some ttl) (some cached_at) = ltb ttl (now - cached_at)

module _ {V : Type 0} where
  abbrev pub forget : Text → Memo V → Memo V
  forget key m = record m {
    cache = map_delete key m.cache;
    timestamps = map_delete key m.timestamps;
  }

  abbrev pub stop_timer : Text → Option ℕ → Memo V → Memo V
  stop_timer key none m = m
  stop_timer key (some id) m = record m {
    timers = map_delete key m.timers;
    live = clear_timeout id m.live;
  }

  unfoldable pub clear_cache_entry : Text → Memo V → Memo V
  clear_cache_entry key m = forget key (stop_timer key (map_get key m.timers) m)

  -- What is stored for a result.
  abbrev pub stored : Bool → Value V → Value V
  stored true v = v
  stored false (promise n) = caught n
  stored false (plain v) = plain v
  stored false (caught n) = caught n

  abbrev pub watch : Bool → Text → Value V → List (ℕ × Text) → List (ℕ × Text)
  watch true key v watched = watched
  watch false key (plain v) watched = watched
  watch false key (promise n) watched = (n, key) ∷ watched
  watch false key (caught n) watched = (n, key) ∷ watched

  unfoldable pub store : Text → ℕ → Bool → Value V → Memo V → Memo V
  store key now cache_rejected v m = record m {
    cache = map_set key (stored cache_rejected v) m.cache;
    timestamps = map_set key now m.timestamps;
    watched = watch cache_rejected key v m.watched;
  }

  -- `setTimeout(clearCacheEntry, ttl)`
  abbrev pub set_timer : Text → ℕ → Memo V → Memo V
  set_timer key due m = record m {
    timers = map_set key m.next_timer m.timers;
    next_timer = suc m.next_timer;
    live = record { id = m.next_timer; key = key; due = due } ∷ m.live;
  }

  unfoldable pub schedule : Text → ℕ → Option ℕ → Bool → Memo V → Memo V
  schedule key now none evict m = m
  schedule key now (some ttl) evict m = if evict then set_timer key (now + ttl) m else m

module _ {Self Args V E : Type 0} (options : Options Self Args) (key_fn : Args → Text)
    (original : Self → Args → Self × Result E (Value V)) where
  -- The end of a call that ran the method: `cacheMap.get(key)`.
  abbrev pub keep_result :
      Args
      → ℕ
      → Option ℕ
      → Memo V
      → Self × Result E (Value V)
      → (Self × Memo V) × Result E (Option (Value V))
  keep_result args now ttl m (self, err e) = ((self, m), err e)
  keep_result args now ttl m (self, ok v) =
      let key = key_fn args in
      let rejected = or_default (resolve_option options.cache_rejected self args) false in
      let evict = or_default (resolve_option options.evict_on_expiry self args) false in
      let m' = schedule key now ttl evict (store key now rejected v m) in
      ((self, m'), ok (map_get key m'.cache))

  abbrev pub uncached :
      Memo V → Self × Result E (Value V) → (Self × Memo V) × Result E (Option (Value V))
  uncached m (self, err e) = ((self, m), err e)
  uncached m (self, ok v) = ((self, m), ok (some v))

  -- A call of the method at the time that `Date.now()` gives. The method itself leaves the memo
  -- alone: one that calls itself through it is not covered.
  unfoldable pub call : Self → Args → ℕ → Memo V → (Self × Memo V) × Result E (Option (Value V))
  call self args now m =
      let key = key_fn args in
      let ttl = resolve_option options.ttl self args in
      if not (or_default (resolve_option options.enabled self args) true)
      then uncached (clear_cache_entry key m) (original self args)
      else if not (is_some (map_get key m.cache)) || is_expired now ttl (map_get key m.timestamps)
      then keep_result args now ttl (clear_cache_entry key m) (original self args)
      else ((self, m), ok (map_get key m.cache))

unfoldable pub find_timer : ℕ → List Timer → Option Text
find_timer id [] = none
find_timer id (t ∷ live) = let rest = find_timer id live in if t.id == id then some t.key else rest

module _ {V : Type 0} where
  abbrev clear_if : Option Text → Memo V → Memo V
  clear_if none m = m
  clear_if (some key) m = clear_cache_entry key m

  -- A timeout fires, if it is still set.
  unfoldable pub fire : ℕ → Memo V → Memo V
  fire id m = clear_if (find_timer id m.live) (record m { live = clear_timeout id m.live })

  unfoldable pub clear_watched : ℕ → List (ℕ × Text) → Memo V → Memo V
  clear_watched n [] m = m
  clear_watched n ((p, key) ∷ watched) m =
      clear_watched n watched (if p == n then clear_cache_entry key m else m)

  -- A promise is rejected: each `.catch` of it clears its key.
  unfoldable pub reject : ℕ → Memo V → Memo V
  reject n m = clear_watched n m.watched m
