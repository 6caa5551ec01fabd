-- ===== src/ChannelAccounts/Plugin/Runs.antt =====
-- What holds of the pool over any history of pipeline runs.
use mathlib.Core.List.{Perm}
use mathlib.Core.List.Perm
use mathlib.Core.List.{Nodup-nil}
use colibri.Common.{
  ◌≡◌, ◌≢◌, refl, ◌∙◌, inl, inr, Option, none, some, List, [], ◌∷◌, Text, ok, All, arith,
  Result-cases, Option-cases, Bool-cases, map_get, map_get-delete_self,
}
use colibri.ChannelAccounts.Pool.{
  ChannelAccount, ChannelAccountsPool, Resolution, get_channels, enqueue, release, has_allocation,
  empty_pool, new_pool,
}
use colibri.ChannelAccounts.Pool.Invariant.{Inv, without, without-Inv}
use colibri.ChannelAccounts.Pool.Service.{enqueue-get}
use colibri.ChannelAccounts.Pool.Ownership.{allocate-perm, release-perm}
use colibri.ChannelAccounts.Pool.Exclusive.{
  Owned, register_channels-Owned, allocate-Owned, release-Owned, exclusive,
}
use colibri.ChannelAccounts.Plugin.{
  Call, registers, input, output, error, release_channel_if_allocated, after, step, run,
}

-- `onOutput` and `onError` never throw, and afterwards the run holds no channel, provided that it
-- does not wait for one.
release_channel_if_allocated-succeeds :
    (p : ChannelAccountsPool) (k : Text)
    → Inv p
    → All (λ w. w ≢ k) p.waiters
    → (q : ChannelAccountsPool) × (r : Option Resolution) × (release_channel_if_allocated p k
        ≡ ok (q, r))
      × (map_get k q.locked_channels ≡ none)
unfolding release_channel_if_allocated release without has_allocation
release_channel_if_allocated-succeeds p k v h = elim (Option-cases (map_get k p.locked_channels)) [
  | inl missing ↦ (p, none, ground arith, missing)
  | inr (c, held) ↦ (
    (enqueue (without p k) c).0,
    (enqueue (without p k) c).1,
    ground arith,
    enqueue-get (without p k) k c h ∙ map_get-delete_self k p.locked_channels v.keys,
  )
]

after-Owned : (p : ChannelAccountsPool) (k : Text) → Owned p → Owned (after p (release p k))
after-Owned p k o = elim (Result-cases (release p k)) [
  | inl ((q, r), e) ↦ rw e (release-Owned p k q r e o)
  | inr (_, e) ↦ rw e o
]

after-perm :
    (p : ChannelAccountsPool) (k : Text)
    → Inv p
    → Perm (get_channels (after p (release p k))) (get_channels p)
after-perm p k v = elim (Result-cases (release p k)) [
  | inl ((q, r), e) ↦ rw e (release-perm p k q r e (without-Inv p k v))
  | inr (_, e) ↦ rw e (Perm.refl _)
]

after_cases {ℓ} :
    (P : ChannelAccountsPool → Type ℓ) (p : ChannelAccountsPool) (k : Text)
    → P p
    → P (after p (release p k))
    → P (after p (release_channel_if_allocated p k))
unfolding release_channel_if_allocated
after_cases P p k same released = elim (Bool-cases (has_allocation p k)) [
  | inl yes_held ↦ rw yes_held released
  | inr not_held ↦ rw not_held same
]

-- A pipeline passes the input of a run only while the run does not wait already.
abbrev pub Allowed : ChannelAccountsPool → Call → Type 0
Allowed p (input k) = All (λ w. w ≢ k) p.waiters
Allowed p c = Unit {0}

abbrev pub Disciplined : ChannelAccountsPool → List Call → Type 0
Disciplined p [] = Unit {0}
Disciplined p (c ∷ cs) = Allowed p c × Disciplined (step p c) cs

step-Owned : (p : ChannelAccountsPool) (c : Call) → Allowed p c → Owned p → Owned (step p c)
unfolding step
step-Owned p (registers channels) h o = register_channels-Owned p channels o
step-Owned p (input k) h o = allocate-Owned p k h o
step-Owned p (output k) h o = after_cases Owned p k o (after-Owned p k o)
step-Owned p (error k) h o = after_cases Owned p k o (after-Owned p k o)

run-Owned :
    (p : ChannelAccountsPool) (cs : List Call) → Disciplined p cs → Owned p → Owned (run p cs)
unfolding run
run-Owned p [] d o = o
run-Owned p (c ∷ cs) d o = run-Owned (step p c) cs d.1 (step-Owned p c d.0 o)

pub new_pool-Owned : (cs : List ChannelAccount) → Owned (new_pool cs)
unfolding new_pool
new_pool-Owned cs = register_channels-Owned empty_pool cs (record {
  inv = record { keys = tt; queue = tt; apart = tt; served = inl refl };
  distinct = Nodup-nil;
})

-- After any history of runs and registrations of a pool made by the constructor, two runs that hold
-- a channel with the same address are one run, provided that no run asks again while it waits.
pub run-exclusive :
    (channels : List ChannelAccount) (cs : List Call) (j k : Text) (c d : ChannelAccount)
    → Disciplined (new_pool channels) cs
    → map_get j (run (new_pool channels) cs).locked_channels ≡ some c
    → map_get k (run (new_pool channels) cs).locked_channels ≡ some d
    → c.address ≡ d.address
    → j ≡ k
run-exclusive channels cs j k c d h =
    exclusive (run (new_pool channels) cs) j k c d
      (run-Owned (new_pool channels) cs h (new_pool-Owned channels))

-- No channel is registered.
abbrev pub IsQuiet : Call → Type 0
IsQuiet (registers channels) = ⊥
IsQuiet _ = Unit {0}

step-perm :
    (p : ChannelAccountsPool) (c : Call)
    → IsQuiet c
    → Inv p
    → Perm (get_channels (step p c)) (get_channels p)
unfolding step
step-perm p (registers channels) h v = absurd h
step-perm p (input k) h v = allocate-perm p k
step-perm p (output k) h v =
    after_cases (λ q. Perm (get_channels q) (get_channels p)) p k (Perm.refl _) (after-perm p k v)
step-perm p (error k) h v =
    after_cases (λ q. Perm (get_channels q) (get_channels p)) p k (Perm.refl _) (after-perm p k v)

-- Over any history without a registration the pool owns the same channels, each as often, provided
-- that no run asks again while it waits: none is lost, none is made up.
pub run-perm :
    (p : ChannelAccountsPool) (cs : List Call)
    → Owned p
    → Disciplined p cs
    → All IsQuiet cs
    → Perm (get_channels (run p cs)) (get_channels p)
unfolding run
run-perm p [] o d h = Perm.refl _
run-perm p (c ∷ cs) o d h =
    Perm.trans (run-perm (step p c) cs (step-Owned p c d.0 o) d.1 h.1) (step-perm p c h.0 o.inv)
