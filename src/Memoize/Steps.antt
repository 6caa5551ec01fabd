-- ===== src/Memoize/Steps.antt =====
-- Clearing and storing an entry of a memo of core/common/decorators/memoize/index.ts keep it in order.
use colibri.Common.{
  ℕ, ◌+◌, ◌≡◌, refl, ◌∙◌, Bool, true, false, Option, none, some, Text, text_eq, if◌then◌else◌,
  map_get, map_set, map_delete, map_get-set, map_get-delete, map_set-HasDistinctKeys,
  map_delete-HasDistinctKeys, arith, text_eq_refl,
}
use colibri.Memoize.{
  Value, Memo, is_some, forget, stop_timer, clear_cache_entry, stored, store, set_timer, schedule,
}
use colibri.Memoize.Entries.{
  dated, entry, Ordered, clear_timeout-Current, untimed-Current, stored-Current,
}

module _ {V : Type 0} (key : Text) (m : Memo V) (w : Ordered m) where
  abbrev cleared : Option ℕ → Memo V
  cleared o = forget key (stop_timer key o m)

  cleared-dates :
      (k : Text)
      → is_some (map_get k (map_delete key m.cache))
        ≡ is_some (map_get k (map_delete key m.timestamps))
  cleared-dates k =
      rw (map_get-delete k key m.cache w.cache, map_get-delete k key m.timestamps w.timestamps)
        (ground (arith, w.dates k))

  cleared-Ordered : (o : Option ℕ) → map_get key m.timers ≡ o → Ordered (cleared o)
  cleared-Ordered none h = record {
    cache = map_delete-HasDistinctKeys key m.cache w.cache;
    timestamps = map_delete-HasDistinctKeys key m.timestamps w.timestamps;
    timers = w.timers;
    dates = cleared-dates;
    current = untimed-Current key m.timers m.timestamps m.live h w.current;
  }
  cleared-Ordered (some id) h = record {
    cache = map_delete-HasDistinctKeys key m.cache w.cache;
    timestamps = map_delete-HasDistinctKeys key m.timestamps w.timestamps;
    timers = map_delete-HasDistinctKeys key m.timers w.timers;
    dates = cleared-dates;
    current = clear_timeout-Current key m.timers m.timestamps id m.live h w.current;
  }

  pub clear_cache_entry-Ordered : Ordered (clear_cache_entry key m)
  unfolding clear_cache_entry
  clear_cache_entry-Ordered = cleared-Ordered (map_get key m.timers) refl

  deleted-entry :
      (k : Text)
      → dated (map_get k (map_delete key m.cache)) (map_get k (map_delete key m.timestamps))
        ≡ (if text_eq key k then none else entry m k)
  unfolding entry
  deleted-entry k =
      rw (map_get-delete k key m.cache w.cache, map_get-delete k key m.timestamps w.timestamps)
        (ground arith)

  cleared-entry :
      (o : Option ℕ) (k : Text) → entry (cleared o) k ≡ (if text_eq key k then none else entry m k)
  unfolding entry
  cleared-entry none k = deleted-entry k
  cleared-entry (some id) k = deleted-entry k

  pub entry-clear_cache_entry :
      (k : Text) → entry (clear_cache_entry key m) k ≡ (if text_eq key k then none else entry m k)
  unfolding clear_cache_entry
  entry-clear_cache_entry k = cleared-entry (map_get key m.timers) k

  cleared-untimed :
      (o : Option ℕ) → map_get key m.timers ≡ o → map_get key (cleared o).timers ≡ none
  cleared-untimed none h = h
  cleared-untimed (some id) h =
      map_get-delete key key m.timers w.timers ∙ rw (text_eq_refl key) refl

  pub clear_cache_entry-untimed : map_get key (clear_cache_entry key m).timers ≡ none
  unfolding clear_cache_entry
  clear_cache_entry-untimed = cleared-untimed (map_get key m.timers) refl

-- Storing a result for a key without a timeout.
module _ {V : Type 0} (key : Text) (now : ℕ) (rejected : Bool) (v : Value V) (m : Memo V)
    (w : Ordered m) (untimed : map_get key m.timers ≡ none) where
  stored-dates :
      (k : Text)
      → is_some (map_get k (map_set key (stored rejected v) m.cache))
        ≡ is_some (map_get k (map_set key now m.timestamps))
  stored-dates k =
      rw (map_get-set k key (stored rejected v) m.cache, map_get-set k key now m.timestamps)
        (ground (arith, w.dates k))

  set-entry :
      (k : Text)
      → dated
          (map_get k (map_set key (stored rejected v) m.cache))
          (map_get k (map_set key now m.timestamps))
        ≡ (if text_eq key k then some (stored rejected v, now) else entry m k)
  unfolding entry
  set-entry k =
      rw (map_get-set k key (stored rejected v) m.cache, map_get-set k key now m.timestamps)
        (ground arith)

  set-get : map_get key (map_set key (stored rejected v) m.cache) ≡ some (stored rejected v)
  set-get = map_get-set key key (stored rejected v) m.cache ∙ rw (text_eq_refl key) refl

  store-Ordered : Ordered (store key now rejected v m)
  unfolding store
  store-Ordered = record {
    cache = map_set-HasDistinctKeys key (stored rejected v) m.cache w.cache;
    timestamps = map_set-HasDistinctKeys key now m.timestamps w.timestamps;
    timers = w.timers;
    dates = stored-dates;
    current = (stored-Current key m.timers m.timestamps 0 now m.live untimed w.current).1;
  }

  set_timer-Ordered : (ttl : ℕ) → Ordered (set_timer key (now + ttl) (store key now rejected v m))
  unfolding store
  set_timer-Ordered ttl = record {
    cache = map_set-HasDistinctKeys key (stored rejected v) m.cache w.cache;
    timestamps = map_set-HasDistinctKeys key now m.timestamps w.timestamps;
    timers = map_set-HasDistinctKeys key m.next_timer m.timers w.timers;
    dates = stored-dates;
    current = (
      (
        map_get-set key key m.next_timer m.timers ∙ rw (text_eq_refl key) refl,
        (now, ttl, map_get-set key key now m.timestamps ∙ rw (text_eq_refl key) refl, refl),
      ),
      (stored-Current key m.timers m.timestamps m.next_timer now m.live untimed w.current).0,
    );
  }

  pub schedule-Ordered :
      (ttl : Option ℕ) (evict : Bool)
      → Ordered (schedule key now ttl evict (store key now rejected v m))
  unfolding schedule
  schedule-Ordered none evict = store-Ordered
  schedule-Ordered (some ttl) true = set_timer-Ordered ttl
  schedule-Ordered (some ttl) false = store-Ordered

  pub entry-schedule :
      (ttl : Option ℕ) (evict : Bool) (k : Text)
      → entry (schedule key now ttl evict (store key now rejected v m)) k
        ≡ (if text_eq key k then some (stored rejected v, now) else entry m k)
  unfolding schedule entry store
  entry-schedule none evict k = set-entry k
  entry-schedule (some ttl) true k = set-entry k
  entry-schedule (some ttl) false k = set-entry k

  pub get-schedule :
      (ttl : Option ℕ) (evict : Bool)
      → map_get key (schedule key now ttl evict (store key now rejected v m)).cache
        ≡ some (stored rejected v)
  unfolding schedule store
  get-schedule none evict = set-get
  get-schedule (some ttl) true = set-get
  get-schedule (some ttl) false = set-get
