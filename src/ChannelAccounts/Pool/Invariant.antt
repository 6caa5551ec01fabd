-- ===== src/ChannelAccounts/Pool/Invariant.antt =====
-- The invariant of the pool and what keeps it.
use colibri.Common.{
  ◌≡◌, ◌≢◌, refl, sym, ◌∙◌, ◌⊎◌, inl, inr, Option, none, some, List, [], ◌∷◌, ◌++◌, Text, text_eq,
  text_eq_iff, ok, All, All-append, arith, Option-cases, Bool-cases, map_get, map_set, map_delete,
  HasDistinctKeys, map_get-set, map_get-delete_ne, map_get-delete_self, map_set-HasDistinctKeys,
  map_delete-HasDistinctKeys,
}
use colibri.ChannelAccounts.Pool.{
  ChannelAccount, ChannelAccountsPool, Resolution, get_channels, hand_over, enqueue, pop_free,
  allocate, release, register_channels, some_same,
}

-- No run waits twice, and none waits that holds a channel.
abbrev pub DistinctWaiters : List Text → Type 0
DistinctWaiters [] = Unit {0}
DistinctWaiters (w ∷ ws) = All (λ v. v ≢ w) ws × DistinctWaiters ws

pub record Inv (p : ChannelAccountsPool) : Type 0 where
  pub keys : HasDistinctKeys p.locked_channels
  pub queue : DistinctWaiters p.waiters
  pub apart : All (λ w. map_get w p.locked_channels ≡ none) p.waiters
  pub served : (p.waiters ≡ []) ⊎ (p.free_channels ≡ [])

apart-set :
    (k : Text) (c : ChannelAccount) (m : List (Text × ChannelAccount)) (ws : List Text)
    → All (λ w. w ≢ k) ws
    → All (λ w. map_get w m ≡ none) ws
    → All (λ w. map_get w (map_set k c m) ≡ none) ws
apart-set k c m [] h a = tt
apart-set k c m (w ∷ ws) h a =
    (ground (arith, map_get-set w k c m, text_eq_iff k w), apart-set k c m ws h.1 a.1)

apart-delete :
    (k : Text) (m : List (Text × ChannelAccount)) (ws : List Text)
    → HasDistinctKeys m
    → All (λ w. map_get w m ≡ none) ws
    → All (λ w. map_get w (map_delete k m) ≡ none) ws
apart-delete k m [] h a = tt
apart-delete k m (w ∷ ws) h a = elim (Bool-cases (text_eq k w)) [
  | inl same ↦
      (rw (← (text_eq_iff k w).0 same) (map_get-delete_self k m h), apart-delete k m ws h a.1)
  | inr other ↦
      (map_get-delete_ne w k m (ground (arith, text_eq_iff k w)) ∙ a.0, apart-delete k m ws h a.1)
]

hand_over-Inv :
    (p : ChannelAccountsPool) (c : ChannelAccount) (ws : List Text)
    → p.waiters ≡ ws
    → Inv p
    → Inv (hand_over p c ws).0
unfolding hand_over
hand_over-Inv p c [] e v = record {
  keys = v.keys;
  queue = v.queue;
  apart = v.apart;
  served = inl e;
}
hand_over-Inv p c (w ∷ ws) e v =
    let q : DistinctWaiters (w ∷ ws) = rw e at v.queue in
    let a : All (λ w. map_get w p.locked_channels ≡ none) (w ∷ ws) = rw e at v.apart in
    record {
      keys = map_set-HasDistinctKeys w c p.locked_channels v.keys;
      queue = q.1;
      apart = apart-set w c p.locked_channels ws q.0 a.1;
      served = ground arith;
    }

pub enqueue-Inv : (p : ChannelAccountsPool) (c : ChannelAccount) → Inv p → Inv (enqueue p c).0
unfolding enqueue
enqueue-Inv p c v = hand_over-Inv p c p.waiters refl v

pub register_channels-Inv :
    (p : ChannelAccountsPool) (cs : List ChannelAccount) → Inv p → Inv (register_channels p cs).0
unfolding register_channels
register_channels-Inv p [] v = v
register_channels-Inv p (c ∷ cs) v = elim (Bool-cases (some_same c (get_channels p))) [
  | inl known ↦ rw known (register_channels-Inv p cs v)
  | inr new ↦ rw new (register_channels-Inv (enqueue p c).0 cs (enqueue-Inv p c v))
]

DistinctWaiters-concat :
    (ws : List Text) (k : Text)
    → All (λ w. w ≢ k) ws
    → DistinctWaiters ws
    → DistinctWaiters (ws ++ k ∷ [])
DistinctWaiters-concat [] k h d = (tt, tt)
DistinctWaiters-concat (w ∷ ws) k h d = (
  All-append (λ v. v ≢ w) ws (k ∷ []) d.0 ((λ e. h.0 (sym e)), tt),
  DistinctWaiters-concat ws k h.1 d.1,
)

pop_free-Inv :
    (p : ChannelAccountsPool) (k : Text) (fs : List ChannelAccount)
    → p.free_channels ≡ fs
    → map_get k p.locked_channels ≡ none
    → All (λ w. w ≢ k) p.waiters
    → Inv p
    → Inv (pop_free p k fs).0
unfolding pop_free
pop_free-Inv p k [] e n h v = record {
  keys = v.keys;
  queue = DistinctWaiters-concat p.waiters k h v.queue;
  apart = All-append (λ w. map_get w p.locked_channels ≡ none) p.waiters (k ∷ []) v.apart (n, tt);
  served = inr e;
}
pop_free-Inv p k (c ∷ fs) e n h v = record {
  keys = map_set-HasDistinctKeys k c p.locked_channels v.keys;
  queue = v.queue;
  apart = apart-set k c p.locked_channels p.waiters h v.apart;
  served = ground arith;
}

-- A run that does not wait already may allocate.
pub allocate-Inv :
    (p : ChannelAccountsPool) (k : Text) → All (λ w. w ≢ k) p.waiters → Inv p → Inv (allocate p k).0
unfolding allocate
allocate-Inv p k h v = elim (Option-cases (map_get k p.locked_channels)) [
  | inr (c, held) ↦ rw (held, allocate) v
  | inl new ↦ rw (new, allocate) (pop_free-Inv p k p.free_channels refl new h v)
]

-- A release is an `enqueue` of the channel in the pool without the run.
unfoldable pub without : ChannelAccountsPool → Text → ChannelAccountsPool
without p k = record p { locked_channels = map_delete k p.locked_channels }

pub without-Inv : (p : ChannelAccountsPool) (k : Text) → Inv p → Inv (without p k)
unfolding without
without-Inv p k v = record {
  keys = map_delete-HasDistinctKeys k p.locked_channels v.keys;
  queue = v.queue;
  apart = apart-delete k p.locked_channels p.waiters v.keys v.apart;
  served = v.served;
}

pub release-inv :
    (p : ChannelAccountsPool) (k : Text) (q : ChannelAccountsPool) (r : Option Resolution)
    → release p k ≡ ok (q, r)
    → (c : ChannelAccount) × (map_get k p.locked_channels ≡ some c)
      × (enqueue (without p k) c ≡ (q, r))
unfolding release without
release-inv p k q r h = elim (Option-cases (map_get k p.locked_channels)) [
  | inl missing ↦ ground arith
  | inr (c, held) ↦ (c, held, ground arith)
]

pub release-Inv :
    (p : ChannelAccountsPool) (k : Text) (q : ChannelAccountsPool) (r : Option Resolution)
    → release p k ≡ ok (q, r)
    → Inv p
    → Inv q
release-Inv p k q r h v =
    let (c, held, e) = release-inv p k q r h in
    rw e at (enqueue-Inv (without p k) c (without-Inv p k v))
