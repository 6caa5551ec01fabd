-- ===== src/ChannelAccounts/Plugin.antt =====
-- The plugin around the pool: plugins/channel-accounts/src/plugin/index.ts and helpers.ts, and
-- shared/signers.ts. A run of a pipeline passes its input, and then its output or its error.
pub mod Runs
use colibri.Common.{
  Bool, ◌||◌, Option, none, some, List, [], ◌∷◌, Text, text_eq, codes, Result, ok, if◌then◌else◌,
  map_set, values,
}
use colibri.ChannelAccounts.Pool.{
  SignerObject, ChannelAccount, ChannelAccountsPool, PoolError, Resolution, register_channels,
  has_allocation, allocate, release,
}

-- `releaseChannelIfAllocated`
unfoldable pub release_channel_if_allocated :
    ChannelAccountsPool → Text → Result PoolError (ChannelAccountsPool × Option Resolution)
unfolding has_allocation release
release_channel_if_allocated p run_id =
    if has_allocation p run_id then release p run_id else ok (p, none)

-- What a pipeline run, or the code that owns the plugin, makes the plugin do.
pub data Call : Type 0 where
  registers : List ChannelAccount → Call
  input output error : (run_id : Text) → Call

-- The pool after a call; one that throws leaves it as it was.
abbrev pub after :
    ChannelAccountsPool
    → Result PoolError (ChannelAccountsPool × Option Resolution)
    → ChannelAccountsPool
after p (ok (q, _)) = q
after p (Result.err e) = p

-- `onInput`, `onOutput` and `onError` of the plugin, and `registerChannels` of its controls.
unfoldable pub step : ChannelAccountsPool → Call → ChannelAccountsPool
unfolding release_channel_if_allocated
step p (registers channels) = (register_channels p channels).0
step p (input run_id) = (allocate p run_id).0
step p (output run_id) = after p (release_channel_if_allocated p run_id)
step p (error run_id) = after p (release_channel_if_allocated p run_id)

unfoldable pub run : ChannelAccountsPool → List Call → ChannelAccountsPool
unfolding step
run p [] = p
run p (c ∷ cs) = run (step p c) cs

-- The part of the input's configuration that the plugin replaces.
pub record TransactionConfig : Type 0 where
  pub source : Text
  pub signers : List SignerObject

-- `new Map(signers.map(…))`, then a `set` for each further signer.
set_all : List (Text × SignerObject) → List SignerObject → List (Text × SignerObject)
set_all m [] = m
set_all m (s ∷ rest) = set_all (map_set s.public_key s m) rest

unfoldable pub append_unique_signers : List SignerObject → List SignerObject → List SignerObject
unfolding set_all
append_unique_signers signers extra = values (set_all (set_all [] signers) extra)

unfoldable pub inject_channel_account : TransactionConfig → ChannelAccount → TransactionConfig
unfolding append_unique_signers
inject_channel_account config channel = record config {
  source = channel.address;
  signers = append_unique_signers config.signers (channel.signer ∷ []);
}
