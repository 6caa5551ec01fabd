-- ===== src/Memoize/Refinement.antt =====
-- A memo that is one function from keys to entries, and that the memoized method of
-- core/common/decorators/memoize/index.ts implements with its three maps and its timeouts.
use colibri.Common.{
  ℕ, ◌≡◌, refl, ap, ◌∙◌, true, false, not, ◌||◌, Option, none, some, Text, text_eq, Result, ok, err,
  if◌then◌else◌, map_get, Bool-cases, inl, inr, arith,
}
use colibri.Memoize.{
  Value, Options, Memo, resolve_option, or_default, is_some, is_expired, clear_cache_entry, stored,
  keep_result, uncached, call,
}
use colibri.Memoize.Entries.{dated, entry, Ordered}
use colibri.Memoize.Steps.{
  clear_cache_entry-Ordered, entry-clear_cache_entry, clear_cache_entry-untimed, schedule-Ordered,
  entry-schedule, get-schedule,
}

-- The value of a key and when it was stored.
abbrev pub Entries : Type 0 → Type 0
Entries V = Text → Option (Value V × ℕ)

abbrev pub put : {V : Type 0} → Text → Option (Value V × ℕ) → Entries V → Entries V
put key e entries k = if text_eq key k then e else entries k

-- The value of an entry that has not expired.
abbrev pub fresh : {V : Type 0} → ℕ → Option ℕ → Option (Value V × ℕ) → Option (Value V)
fresh now ttl none = none
fresh now ttl (some (v, at)) = if is_expired now ttl (some at) then none else some v

module _ {Self Args V E : Type 0} (options : Options Self Args) (key_fn : Args → Text)
    (original : Self → Args → Self × Result E (Value V)) where
  abbrev pub spec_keep :
      Args → ℕ → Entries V → Self × Result E (Value V) → (Self × Entries V) × Result E (Value V)
  spec_keep args now entries (self, err e) = ((self, put (key_fn args) none entries), err e)
  spec_keep args now entries (self, ok v) =
      let kept = stored (or_default (resolve_option options.cache_rejected self args) false) v in
      ((self, put (key_fn args) (some (kept, now)) entries), ok kept)

  abbrev pub spec_uncached :
      Args → Entries V → Self × Result E (Value V) → (Self × Entries V) × Result E (Value V)
  spec_uncached args entries (self, r) = ((self, put (key_fn args) none entries), r)

  abbrev pub spec_cached :
      Self → Args → ℕ → Entries V → Option (Value V) → (Self × Entries V) × Result E (Value V)
  spec_cached self args now entries none = spec_keep args now entries (original self args)
  spec_cached self args now entries (some v) = ((self, entries), ok v)

  -- What memoizing means: a fresh value is returned as it is, and the method is run for any other.
  unfoldable pub spec_call : Self → Args → ℕ → Entries V → (Self × Entries V) × Result E (Value V)
  spec_call self args now entries =
      if not (or_default (resolve_option options.enabled self args) true)
      then spec_uncached args entries (original self args)
      else spec_cached self args now entries
          (fresh now (resolve_option options.ttl self args) (entries (key_fn args)))

abbrev pub some_result {ℓ κ} : {E : Type ℓ} {A : Type κ} → Result E A → Result E (Option A)
some_result (ok a) = ok (some a)
some_result (err e) = err e

-- The same instance, entries and result, and a memo in order.
pub record Implements {Self V E : Type 0} (x : (Self × Memo V) × Result E (Option (Value V)))
    (y : (Self × Entries V) × Result E (Value V)) : Type 0 where
  pub self : x.0.0 ≡ y.0.0
  pub entries : (k : Text) → entry x.0.1 k ≡ y.0.1 k
  pub result : x.1 ≡ some_result y.1
  pub ordered : Ordered x.0.1

module _ {Self Args V E : Type 0} (options : Options Self Args) (key_fn : Args → Text)
    (original : Self → Args → Self × Result E (Value V)) (m : Memo V) (w : Ordered m) where
  uncached-Implements :
      (args : Args) (out : Self × Result E (Value V))
      → Implements
          (uncached options key_fn original (clear_cache_entry (key_fn args) m) out)
          (spec_uncached options key_fn original args (entry m) out)
  uncached-Implements args (self, ok v) = record {
    self = refl;
    entries = entry-clear_cache_entry (key_fn args) m w;
    result = refl;
    ordered = clear_cache_entry-Ordered (key_fn args) m w;
  }
  uncached-Implements args (self, err e) = record {
    self = refl;
    entries = entry-clear_cache_entry (key_fn args) m w;
    result = refl;
    ordered = clear_cache_entry-Ordered (key_fn args) m w;
  }

  keep_result-Implements :
      (args : Args) (now : ℕ) (ttl : Option ℕ) (out : Self × Result E (Value V))
      → Implements
          (keep_result options key_fn original args now ttl (clear_cache_entry (key_fn args) m) out)
          (spec_keep options key_fn original args now (entry m) out)
  keep_result-Implements args now ttl (self, err e) = record {
    self = refl;
    entries = entry-clear_cache_entry (key_fn args) m w;
    result = refl;
    ordered = clear_cache_entry-Ordered (key_fn args) m w;
  }
  keep_result-Implements args now ttl (self, ok v) =
      let key = key_fn args in
      let m' = clear_cache_entry key m in
      let w' = clear_cache_entry-Ordered key m w in
      let untimed = clear_cache_entry-untimed key m w in
      let rejected = or_default (resolve_option options.cache_rejected self args) false in
      let evict = or_default (resolve_option options.evict_on_expiry self args) false in
      record {
        self = refl;
        entries = λ k.
            entry-schedule key now rejected v m' w' untimed ttl evict k
            ∙ rw (entry-clear_cache_entry key m w k) (ground arith);
        result = ap ok (get-schedule key now rejected v m' w' untimed ttl evict);
        ordered = schedule-Ordered key now rejected v m' w' untimed ttl evict;
      }

  -- Where the maps have a key, the entry has it, and the same tests apply.
  cached-Implements :
      (self : Self) (args : Args) (now : ℕ) (ttl : Option ℕ) (a : Option (Value V)) (at : Option ℕ)
      → map_get (key_fn args) m.cache ≡ a
      → map_get (key_fn args) m.timestamps ≡ at
      → is_some a ≡ is_some at
      → Implements
          (if not (is_some a) || is_expired now ttl at
            then keep_result options key_fn original args now ttl
                (clear_cache_entry (key_fn args) m)
                (original self args)
            else ((self, m), ok a))
          (spec_cached options key_fn original self args now (entry m) (fresh now ttl (dated a at)))
  cached-Implements self args now ttl none at h k same =
      keep_result-Implements args now ttl (original self args)
  cached-Implements self args now ttl (some v) none h k same = ground arith
  cached-Implements self args now ttl (some v) (some at) h k same =
      elim (Bool-cases (is_expired now ttl (some at))) [
        | inl old ↦ rw old (keep_result-Implements args now ttl (original self args))
        | inr young ↦
            rw young (record { self = refl; entries = λ j. refl; result = refl; ordered = w })
      ]

-- On a memo in order, a call gives the instance, the result and the entries that the specification
-- gives on the entries of the memo, whatever the options resolve to, whether the method returns or
-- throws, and leaves the memo in order; so the call never returns undefined for want of an entry.
pub call-Implements :
    {Self Args V E : Type 0} (options : Options Self Args) (key_fn : Args → Text)
    (original : Self → Args → Self × Result E (Value V)) (self : Self) (args : Args) (now : ℕ)
    (m : Memo V)
    → Ordered m
    → Implements
        (call options key_fn original self args now m)
        (spec_call options key_fn original self args now (entry m))
unfolding call spec_call entry
call-Implements options key_fn original self args now m w =
    elim (Bool-cases (or_default (resolve_option options.enabled self args) true)) [
      | inl on ↦ rw on (
          cached-Implements options key_fn original m w self args now
            (resolve_option options.ttl self args) (map_get (key_fn args) m.cache)
            (map_get (key_fn args) m.timestamps) refl refl (w.dates (key_fn args)))
      | inr off ↦ rw off (uncached-Implements options key_fn original m w args (original self args))
    ]
