-- ===== src/Memoize/Entries.antt =====
-- The entries of a memo of core/common/decorators/memoize/index.ts, and the order of its three maps and
-- its timeouts that every step keeps.
use colibri.Common.{
  ℕ, ◌+◌, ◌≡◌, ◌≢◌, refl, sym, ap, ◌∙◌, false, Option, none, some, List, [], ◌∷◌, Text, text_eq,
  text_eq_iff, All, ◌==◌, map_get, map_set, map_delete, map_get-set, map_get-delete_ne,
  HasDistinctKeys, Bool-cases, inl, inr, arith, some-injective,
}
use colibri.Memoize.{Value, Timer, Memo, is_some, clear_timeout}

-- A value and when it was stored, for the keys that have both.
abbrev pub dated {ℓ} : {A : Type ℓ} → Option A → Option ℕ → Option (A × ℕ)
dated none at = none
dated (some a) none = none
dated (some a) (some at) = some (a, at)

unfoldable pub entry : {V : Type 0} → Memo V → Text → Option (Value V × ℕ)
entry m key = dated (map_get key m.cache) (map_get key m.timestamps)

-- A timeout that is set is the one in the map for its key, and is due after the entry of the key was
-- stored.
abbrev pub Current : List (Text × ℕ) → List (Text × ℕ) → Timer → Type 0
Current timers timestamps t =
    (map_get t.key timers ≡ some t.id)
    × ((at : ℕ) × (ttl : ℕ) × (map_get t.key timestamps ≡ some at) × (t.due ≡ at + ttl))

pub record Ordered {V : Type 0} (m : Memo V) : Type 0 where
  pub cache : HasDistinctKeys m.cache
  pub timestamps : HasDistinctKeys m.timestamps
  pub timers : HasDistinctKeys m.timers
  pub dates : (key : Text) → is_some (map_get key m.cache) ≡ is_some (map_get key m.timestamps)
  pub current : All (Current m.timers m.timestamps) m.live

some_ne_none {ℓ} : {A : Type ℓ} {a : A} {o : Option A} → o ≡ some a → o ≡ none → ⊥
some_ne_none h k = cc

-- A timeout for another key stays current.
Current-kept :
    (timers timers' timestamps timestamps' : List (Text × ℕ)) (t : Timer)
    → map_get t.key timers' ≡ map_get t.key timers
    → map_get t.key timestamps' ≡ map_get t.key timestamps
    → Current timers timestamps t
    → Current timers' timestamps' t
Current-kept timers timers' timestamps timestamps' t h k (id, (at, ttl, stamp, due)) =
    (h ∙ id, (at, ttl, k ∙ stamp, due))

module _ (key : Text) (timers timestamps : List (Text × ℕ)) where
  Current-delete :
      (t : Timer)
      → t.key ≢ key
      → Current timers timestamps t
      → Current (map_delete key timers) (map_delete key timestamps) t
  Current-delete t h =
      Current-kept timers (map_delete key timers) timestamps (map_delete key timestamps) t
        (map_get-delete_ne t.key key timers (λ e. h (sym e)))
        (map_get-delete_ne t.key key timestamps (λ e. h (sym e)))

  pub clear_timeout-Current :
      (id : ℕ) (live : List Timer)
      → map_get key timers ≡ some id
      → All (Current timers timestamps) live
      → All (Current (map_delete key timers) (map_delete key timestamps)) (clear_timeout id live)
  unfolding clear_timeout
  clear_timeout-Current id [] h all = tt
  clear_timeout-Current id (t ∷ live) h all = elim (Bool-cases (t.id == id)) [
    | inl same ↦ rw same (clear_timeout-Current id live h all.1)
    | inr other ↦ rw other (
      Current-delete t
          (λ e.
            let same = some-injective (sym all.0.0 ∙ ap (λ k. map_get k timers) e ∙ h) in
            ground arith)
          all.0,
      clear_timeout-Current id live h all.1,
    )
  ]

  pub untimed-Current :
      (live : List Timer)
      → map_get key timers ≡ none
      → All (Current timers timestamps) live
      → All (Current timers (map_delete key timestamps)) live
  untimed-Current [] h all = tt
  untimed-Current (t ∷ live) h all = (
    Current-kept timers timers timestamps (map_delete key timestamps) t refl
        (map_get-delete_ne t.key key timestamps (λ e. some_ne_none all.0.0 (rw (sym e) h))) all.0,
    untimed-Current live h all.1,
  )

  other_key :
      {id : ℕ} (k : Text)
      → map_get k timers ≡ some id
      → map_get key timers ≡ none
      → text_eq key k ≡ false
  other_key k h none_set = elim (Bool-cases (text_eq key k)) [
    | inl same ↦
        absurd (
          some_ne_none h (ap (λ j. map_get j timers) (sym ((text_eq_iff key k).0 same)) ∙ none_set))
    | inr other ↦ other
  ]

  -- A new entry for a key without a timeout keeps every timeout current.
  pub stored-Current :
      (id now : ℕ) (live : List Timer)
      → map_get key timers ≡ none
      → All (Current timers timestamps) live
      → All (Current (map_set key id timers) (map_set key now timestamps)) live
        × All (Current timers (map_set key now timestamps)) live
  stored-Current id now [] h all = (tt, tt)
  stored-Current id now (t ∷ live) h all =
      let other = other_key t.key all.0.0 h in
      let same_timer = map_get-set t.key key id timers in
      let same_stamp = map_get-set t.key key now timestamps in
      let rest = stored-Current id now live h all.1 in
      (
        (
          Current-kept timers (map_set key id timers) timestamps (map_set key now timestamps) t
              (rw other at same_timer) (rw other at same_stamp) all.0,
          rest.0,
        ),
        (
          Current-kept timers timers timestamps (map_set key now timestamps) t refl
              (rw other at same_stamp) all.0,
          rest.1,
        ),
      )
