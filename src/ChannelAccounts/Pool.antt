-- ===== src/ChannelAccounts/Pool.antt =====
-- plugins/channel-accounts/src/plugin/pool.ts. A promise that is not yet resolved is a waiter, and
-- its resolution is part of the result of the call that resolves it.
pub mod Invariant
pub mod Ownership
pub mod Exclusive
pub mod Service
use colibri.Common.{
  push_some, ℕ, Bool, true, false, ◌||◌, Option, none, some, List, [], ◌∷◌, ◌++◌, reverse, Text,
  text_eq, Result, ok, err, if◌then◌else◌, map_get, map_set, map_delete, values,
}

-- A signer object: its public key, and which object it is.
pub record SignerObject : Type 0 where
  pub public_key : Text
  pub handle : ℕ

pub record ChannelAccount : Type 0 where
  pub address : Text
  pub signer : SignerObject

-- `free_channels` has the end of the array at the head, where `push` and `pop` work. A waiter is the
-- closure of one `allocate` call, which holds the run's id.
pub record ChannelAccountsPool : Type 0 where
  pub free_channels : List ChannelAccount
  pub locked_channels : List (Text × ChannelAccount)
  pub waiters : List Text

-- The call of a waiter: the run whose promise resolves, and the channel that it resolves to.
pub record Resolution : Type 0 where
  pub run_id : Text
  pub channel : ChannelAccount

pub data PoolError : Type 0 where
  channel_not_allocated : (run_id : Text) → PoolError

abbrev pub same_channel : ChannelAccount → ChannelAccount → Bool
same_channel left right = text_eq left.address right.address

abbrev pub get_channels : ChannelAccountsPool → List ChannelAccount
get_channels p = reverse p.free_channels ++ values p.locked_channels

unfoldable pub some_same : ChannelAccount → List ChannelAccount → Bool
some_same candidate [] = false
some_same candidate (c ∷ cs) = same_channel c candidate || some_same candidate cs

abbrev has_channel : ChannelAccountsPool → ChannelAccount → Bool
has_channel p candidate = some_same candidate (get_channels p)

-- The waiter at the front of the queue takes the channel, or it becomes free.
hand_over :
    ChannelAccountsPool → ChannelAccount → List Text → ChannelAccountsPool × Option Resolution
hand_over p channel [] = (record p { free_channels = channel ∷ p.free_channels }, none)
hand_over p channel (run_id ∷ rest) = (
  record p { locked_channels = map_set run_id channel p.locked_channels; waiters = rest },
  some (record { run_id = run_id; channel = channel }),
)

unfoldable pub enqueue :
    ChannelAccountsPool → ChannelAccount → ChannelAccountsPool × Option Resolution
unfolding hand_over
enqueue p channel = hand_over p channel p.waiters

unfoldable pub register_channels :
    ChannelAccountsPool → List ChannelAccount → ChannelAccountsPool × List Resolution
unfolding some_same enqueue
register_channels p [] = (p, [])
register_channels p (channel ∷ channels) =
    let skipped = register_channels p channels in
    let (q, resolved) = enqueue p channel in
    let (r, rest) = register_channels q channels in
    if has_channel p channel then skipped else (r, push_some resolved rest)

abbrev pub empty_pool : ChannelAccountsPool
empty_pool = record { free_channels = []; locked_channels = []; waiters = [] }

-- The constructor.
unfoldable pub new_pool : List ChannelAccount → ChannelAccountsPool
unfolding register_channels
new_pool channels = (register_channels empty_pool channels).0

unfoldable pub has_allocation : ChannelAccountsPool → Text → Bool
has_allocation p run_id = elim (map_get run_id p.locked_channels) [ none ↦ false | some c ↦ true ]

pop_free :
    ChannelAccountsPool → Text → List ChannelAccount → ChannelAccountsPool × Option ChannelAccount
pop_free p run_id [] = (record p { waiters = p.waiters ++ run_id ∷ [] }, none)
pop_free p run_id (channel ∷ rest) = (
  record p { free_channels = rest; locked_channels = map_set run_id channel p.locked_channels },
  some channel,
)

-- `none` is a promise that a later `enqueue` resolves.
unfoldable pub allocate : ChannelAccountsPool → Text → ChannelAccountsPool × Option ChannelAccount
unfolding pop_free
allocate p run_id = elim (map_get run_id p.locked_channels) [
  | some existing ↦ (p, some existing)
  | none ↦ pop_free p run_id p.free_channels
]

unfoldable pub release :
    ChannelAccountsPool → Text → Result PoolError (ChannelAccountsPool × Option Resolution)
unfolding enqueue
release p run_id = elim (map_get run_id p.locked_channels) [
  | none ↦ err (channel_not_allocated run_id)
  | some channel ↦
      ok (enqueue (record p { locked_channels = map_delete run_id p.locked_channels }) channel)
]
