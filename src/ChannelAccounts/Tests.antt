-- ===== src/ChannelAccounts/Tests.antt =====
-- Runs of the channel pool on two channels, and instances of the theorems.
use mathlib.Core.List.{Perm}
use colibri.Common.{
  ◌≡◌, ◌≢◌, Text, inr, refl, none, some, List, [], ◌∷◌, codes, text_eq, ok, length, map_get,
  map_set, map_delete,
}
use colibri.ChannelAccounts.Pool.{
  ChannelAccount, ChannelAccountsPool, get_channels, some_same, enqueue, register_channels,
  new_pool, has_allocation, allocate, release,
}
use colibri.ChannelAccounts.Pool.Invariant.{Inv}
use colibri.ChannelAccounts.Pool.Service.{release_serves_oldest, second_wait_loses_channel}
use colibri.ChannelAccounts.Plugin.{
  Call, input, output, release_channel_if_allocated, step, run, inject_channel_account,
}
use colibri.ChannelAccounts.Plugin.Runs.{new_pool-Owned, run-exclusive, run-perm}

pool_runs : Unit {0}
unfolding run step release_channel_if_allocated release allocate has_allocation new_pool
    register_channels some_same enqueue text_eq map_get map_set map_delete
pool_runs = tt

abbrev channel_a : ChannelAccount
channel_a = record { address = codes "GA"; signer = record { public_key = codes "GA"; handle = 1 } }

abbrev channel_b : ChannelAccount
channel_b = record { address = codes "GB"; signer = record { public_key = codes "GB"; handle = 2 } }

abbrev channels : List ChannelAccount
channels = channel_a ∷ channel_b ∷ channel_a ∷ []

abbrev history : List Call
history = input (codes "1") ∷ input (codes "2") ∷ input (codes "3") ∷ output (codes "1") ∷ []

abbrev held : ChannelAccountsPool
held = record {
  free_channels = [];
  locked_channels = (codes "2", channel_a) ∷ (codes "3", channel_b) ∷ [];
  waiters = [];
}

run-history : run (new_pool channels) history ≡ held
unfolding pool_runs
run-history = refl

run-exclusive_example : codes "3" ≡ codes "3"
unfolding pool_runs
run-exclusive_example =
    run-exclusive channels history (codes "3") (codes "3") channel_b channel_b
      (tt, (tt, (tt, (tt, tt)))) refl refl refl

run-perm_example :
    Perm (get_channels (run (new_pool channels) history)) (get_channels (new_pool channels))
unfolding pool_runs
run-perm_example =
    run-perm (new_pool channels) history (new_pool-Owned channels) (tt, (tt, (tt, (tt, tt))))
      (tt, (tt, (tt, (tt, tt))))

-- Run 3 waits while runs 1 and 2 hold the channels.
abbrev contended : ChannelAccountsPool
contended = record {
  free_channels = [];
  locked_channels = (codes "1", channel_b) ∷ (codes "2", channel_a) ∷ [];
  waiters = codes "3" ∷ [];
}

contended-Inv : Inv contended
unfolding map_get text_eq
contended-Inv = record {
  keys = (refl, (refl, tt));
  queue = (tt, tt);
  apart = (refl, tt);
  served = inr refl;
}

release_serves_oldest_example :
    (q : ChannelAccountsPool) × (release contended (codes "1")
      ≡ ok (q, some (record { run_id = codes "3"; channel = channel_b })))
    × (map_get (codes "3") q.locked_channels ≡ some channel_b)
    × (map_get (codes "1") q.locked_channels ≡ none)
    × ((j : Text)
        → j ≢ codes "1"
        → j ≢ codes "3"
        → map_get j q.locked_channels ≡ map_get j contended.locked_channels)
    × (q.waiters ≡ [])
    × (q.free_channels ≡ [])
unfolding pool_runs
release_serves_oldest_example =
    release_serves_oldest contended (codes "1") (codes "3") [] channel_b contended-Inv refl refl

abbrev asked_twice : ChannelAccountsPool
asked_twice = record contended { waiters = codes "3" ∷ codes "3" ∷ [] }

-- The pool of two runs with a channel each, and a third that asked twice, as the calls build it.
run-asked_twice :
    run
      (new_pool channels)
      (input (codes "1") ∷ input (codes "2") ∷ input (codes "3") ∷ input (codes "3") ∷ [])
    ≡ asked_twice
unfolding pool_runs
run-asked_twice = refl

second_wait_loses_channel_example :
    let q = (enqueue asked_twice channel_a).0 in
    let r = (enqueue q channel_b).0 in
    (map_get (codes "3") q.locked_channels ≡ some channel_a)
    × (map_get (codes "3") r.locked_channels ≡ some channel_b)
    × ((j : Text)
        → j ≢ codes "3"
        → map_get j r.locked_channels ≡ map_get j asked_twice.locked_channels)
    × (r.free_channels ≡ asked_twice.free_channels)
    × (length (get_channels r) ≡ length (get_channels q))
second_wait_loses_channel_example =
    second_wait_loses_channel asked_twice (codes "3") [] channel_a channel_b refl

injected :
    inject_channel_account
      (record { source = codes "GX"; signers = channel_b.signer ∷ channel_a.signer ∷ [] })
      channel_b
    ≡ record { source = codes "GB"; signers = channel_b.signer ∷ channel_a.signer ∷ [] }
unfolding inject_channel_account map_set text_eq
injected = refl
