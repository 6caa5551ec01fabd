-- ===== src/ChannelAccounts/Pool/Service.antt =====
-- Whom the pool serves: what `allocate` and `release` answer, and the order of the waiters.
use colibri.Common.{
  suc, ◌≡◌, ◌≢◌, ◌↔◌, ◌⊎◌, refl, ap, inl, inr, none, some, List, [], ◌∷◌, reverse, Text, text_eq,
  text_eq_iff, text_eq_refl, ok, All, arith, length, length-append, Option-cases, Bool-cases,
  map_get, map_set, map_delete, values, map_get-set, map_get-delete_self, map_get-delete_ne, sym,
}
use colibri.ChannelAccounts.Pool.{
  ChannelAccount, ChannelAccountsPool, get_channels, hand_over, enqueue, allocate, release,
}
use colibri.ChannelAccounts.Pool.Invariant.{Inv}

head_cases :
    (cs : List ChannelAccount)
    → (cs ≡ []) ⊎ ((c : ChannelAccount) × (rest : List ChannelAccount) × (cs ≡ c ∷ rest))
head_cases [] = inl refl
head_cases (c ∷ rest) = inr (c, rest, refl)

-- Handing a channel to the waiters leaves alone what a run that does not wait holds.
hand_over-get :
    (p : ChannelAccountsPool) (k : Text) (c : ChannelAccount) (ws : List Text)
    → All (λ w. w ≢ k) ws
    → map_get k (hand_over p c ws).0.locked_channels ≡ map_get k p.locked_channels
unfolding hand_over
hand_over-get p k c [] h = refl
hand_over-get p k c (w ∷ ws) h =
    ground (arith, map_get-set k w c p.locked_channels, text_eq_iff w k)

pub enqueue-get :
    (p : ChannelAccountsPool) (k : Text) (c : ChannelAccount)
    → All (λ w. w ≢ k) p.waiters
    → map_get k (enqueue p c).0.locked_channels ≡ map_get k p.locked_channels
unfolding enqueue
enqueue-get p k c h = hand_over-get p k c p.waiters h

-- A released channel goes to the run that has waited longest: its promise resolves to that very
-- channel, it holds the channel from then on, the other waiters keep their order, the run that
-- released holds nothing, every other run holds what it held, and no free channel is touched.
pub release_serves_oldest :
    (p : ChannelAccountsPool) (k w : Text) (ws : List Text) (c : ChannelAccount)
    → Inv p
    → map_get k p.locked_channels ≡ some c
    → p.waiters ≡ w ∷ ws
    → (q : ChannelAccountsPool) × (release p k ≡ ok (q, some (record { run_id = w; channel = c })))
      × (map_get w q.locked_channels ≡ some c)
      × (map_get k q.locked_channels ≡ none)
      × ((j : Text) → j ≢ k → j ≢ w → map_get j q.locked_channels ≡ map_get j p.locked_channels)
      × (q.waiters ≡ ws)
      × (q.free_channels ≡ p.free_channels)
unfolding release enqueue
release_serves_oldest p k w ws c v held queue =
    let a : All (λ w. map_get w p.locked_channels ≡ none) (w ∷ ws) = rw queue at v.apart in
    let m = map_delete k p.locked_channels in
    (
      record p { locked_channels = map_set w c m; waiters = ws },
      ground arith,
      ground (arith, map_get-set w w c m, text_eq_refl w),
      ground (
        arith,
        map_get-set k w c m,
        map_get-delete_self k p.locked_channels v.keys,
        text_eq_iff w k,
      ),
      (λ j other new. ground (
        arith,
        map_get-set j w c m,
        map_get-delete_ne j k p.locked_channels (λ h. other (sym h)),
        text_eq_iff w j,
      )),
      refl,
      refl,
    )

-- A run that has a channel is given the same one by every further call, and nothing changes.
pub allocate_again :
    (p q : ChannelAccountsPool) (k : Text) (c : ChannelAccount)
    → allocate p k ≡ (q, some c)
    → allocate q k ≡ (q, some c)
unfolding allocate
allocate_again p q k c h = elim (Option-cases (map_get k p.locked_channels)) [
  | inr (d, held) ↦ ground arith
  | inl new ↦ elim (head_cases p.free_channels) [
    | inl e ↦ ground arith
    | inr (d, rest, e) ↦
        let q-is : q
            ≡ record p { free_channels = rest; locked_channels = map_set k d p.locked_channels } =
          ground arith in
        rw q-is (ground (arith, map_get-set k k d p.locked_channels, text_eq_refl k))
  ]
]

-- A call waits exactly when the run holds no channel and none is free.
allocate-waits_iff :
    (p : ChannelAccountsPool) (k : Text)
    → ((allocate p k).1 ≡ none) ↔ ((map_get k p.locked_channels ≡ none) × (p.free_channels ≡ []))
unfolding allocate
allocate-waits_iff p k = elim (head_cases p.free_channels) [
  | inl e ↦ (λ h. ground arith, λ h. ground arith)
  | inr (c, rest, e) ↦ (λ h. ground arith, λ h. ground arith)
]

length-values-set_old :
    (k : Text) (c d : ChannelAccount) (m : List (Text × ChannelAccount))
    → map_get k m ≡ some c
    → length (values (map_set k d m)) ≡ length (values m)
unfolding map_get map_set
length-values-set_old k c d [] h = cc
length-values-set_old k c d ((j, b) ∷ m) h = elim (Bool-cases (text_eq j k)) [
  | inl same ↦ ground arith
  | inr other ↦ rw other (ap suc (length-values-set_old k c d m (ground arith)))
]

length-hand_over_old :
    (p : ChannelAccountsPool) (k : Text) (ws : List Text) (c d : ChannelAccount)
    → map_get k p.locked_channels ≡ some c
    → length (get_channels (hand_over p d (k ∷ ws)).0) ≡ length (get_channels p)
unfolding hand_over
length-hand_over_old p k ws c d h = omega (
  arith,
  length-append (reverse p.free_channels) (values (map_set k d p.locked_channels)),
  length-append (reverse p.free_channels) (values p.locked_channels),
  length-values-set_old k c d p.locked_channels h,
)

-- The pool trusts a run not to ask again while it waits. If it does, and the run is in the queue
-- twice, then it holds the first channel that comes back, and the next one takes the place of that
-- one: the run then holds the second channel, no channel is added to the free ones, every other run
-- holds what it held, and the pool owns one channel less than it was given.
pub second_wait_loses_channel :
    (p : ChannelAccountsPool) (k : Text) (ws : List Text) (c d : ChannelAccount)
    → p.waiters ≡ k ∷ k ∷ ws
    → let q = (enqueue p c).0 in
      let r = (enqueue q d).0 in
      (map_get k q.locked_channels ≡ some c)
      × (map_get k r.locked_channels ≡ some d)
      × ((j : Text) → j ≢ k → map_get j r.locked_channels ≡ map_get j p.locked_channels)
      × (r.free_channels ≡ p.free_channels)
      × (length (get_channels r) ≡ length (get_channels q))
unfolding enqueue hand_over
second_wait_loses_channel p k ws c d e = rw e (
    let m = map_set k c p.locked_channels in
    (
      ground (arith, map_get-set k k c p.locked_channels, text_eq_refl k),
      ground (arith, map_get-set k k d m, text_eq_refl k),
      (λ j other.
          ground
            (arith, map_get-set j k d m, map_get-set j k c p.locked_channels, text_eq_iff k j)),
      refl,
      length-hand_over_old (hand_over p c (k ∷ k ∷ ws)).0 k ws c d
          (ground (arith, map_get-set k k c p.locked_channels, text_eq_refl k)),
    ))
