-- ===== src/ChannelAccounts/Tools/Opening.antt =====
-- What `ChannelAccounts.open` of plugins/channel-accounts/src/tools runs and returns.
use colibri.Common.{
  ℕ, ◌≤◌, ◌<◌, ◌≡◌, Bool, false, Option, none, some, List, [], ◌∷◌, map, Text, codes, text_eq,
  Result, ok, err, length, if◌then◌else◌, ◌⊎◌,
}
use colibri.ChannelAccounts.Pool.{ChannelAccount, SignerObject}
use colibri.ChannelAccounts.Tools.{
  GivenAccount, Thrown, colibri_error, other_error, Platform, ToolsError,
  invalid_number_of_channels, unexpected_error, of_colibri, ChannelOperation,
  begin_sponsoring_future_reserves, create_account, set_options, end_sponsoring_future_reserves,
  max_channels_per_transaction, opening_operations,
}
use colibri.ChannelAccounts.Tools.Closing.{Log}

-- The rule of the network: between the begin and the end of a sponsorship, the account that it is for is
-- created and changed, and no other sponsorship begins. `none` is a breach; the state is the account
-- whose sponsorship is open.
pub sponsorship : Option Text → ChannelOperation → Option (Option Text)
sponsorship none (begin_sponsoring_future_reserves source sponsored_id) = some (some sponsored_id)
sponsorship none _ = none
sponsorship (some a) (create_account source destination starting_balance) =
    if text_eq a destination then some (some a) else none
sponsorship (some a) (set_options source key weight) =
    if text_eq a source then some (some a) else none
sponsorship (some a) (end_sponsoring_future_reserves source) =
    if text_eq a source then some none else none
sponsorship (some a) _ = none

abbrev pub then_follow :
    (Option Text → Option (Option Text)) → Option (Option Text) → Option (Option Text)
then_follow rest none = none
then_follow rest (some next) = rest next

-- The state after operations that keep the rule.
pub follow : List ChannelOperation → Option Text → Option (Option Text)
follow [] state = some state
follow (op ∷ ops) state = then_follow (follow ops) (sponsorship state op)

-- The accounts that operations create: the account that pays, the new one, and its balance.
abbrev pub created : List ChannelOperation → List (Text × Text × Text)
created [] = []
created (create_account source destination starting_balance ∷ ops) =
    (source, destination, starting_balance) ∷ created ops
created (_ ∷ ops) = created ops

-- The signers that operations add: the account, the key and its weight.
abbrev pub added_signers : List ChannelOperation → List (Text × Text × ℕ)
added_signers [] = []
added_signers (set_options source key weight ∷ ops) = (source, key, weight) ∷ added_signers ops
added_signers (_ ∷ ops) = added_signers ops

-- What `open` promises of the operations that it runs: they keep the rule of sponsorships, create the
-- channels in order from the sponsor with a balance of 0, and add the sponsor as a signer of each
-- channel with weight 1, if that is asked for, and no other signer.
abbrev pub Opens : Text → Bool → List ChannelAccount → List ChannelOperation → Type 0
Opens sponsor b channels operations =
    (follow operations none ≡ some none)
    × (created operations ≡ map (λ (c : ChannelAccount). (sponsor, c.address, codes "0")) channels)
    × (added_signers operations
        ≡ (if b then map (λ (c : ChannelAccount). (c.address, sponsor, 1)) channels else []))

module _ {W Colibri : Type 0} (platform : Platform W Colibri) where
  module _ (sponsor : GivenAccount) (b : Bool) (n : ℕ) where
    -- The pipeline has run once, with operations that open that many channels.
    abbrev pub RanOnce : Log → List ChannelAccount → Type 0
    RanOnce log channels =
        (address : Text) × (operations : List ChannelOperation) × (sponsor.address ≡ some address)
        × (length channels ≡ n)
        × (log ≡ operations ∷ [])
        × Opens address b channels operations

    -- What makes `open` throw another error than the library's before it runs the pipeline: a throw of
    -- the sponsor's methods, of a method of `Operation` or of the making of the pipeline.
    abbrev pub Breaks : Type 0
    Breaks =
        (sponsor.address ≡ none)
        ⊎ (sponsor.signer ≡ none)
        ⊎ (platform.create_pipeline ≡ err other_error)
        ⊎ ((op : ChannelOperation) × (platform.accepts op ≡ false))

    abbrev pub ThrowOutcome : (W × Log) × Result (Thrown Colibri) (List ChannelAccount) → Type 0
    ThrowOutcome ((w, log), ok channels) = RanOnce log channels
    ThrowOutcome ((w, log), err (colibri_error e)) =
        ((log ≡ []) × (platform.create_pipeline ≡ err (colibri_error e)))
        ⊎ ((channels : List ChannelAccount) × RanOnce log channels)
    ThrowOutcome ((w, log), err other_error) =
        ((log ≡ []) × Breaks) ⊎ ((channels : List ChannelAccount) × RanOnce log channels)

    abbrev pub OpenOutcome : (W × Log) × Result (ToolsError Colibri) (List ChannelAccount) → Type 0
    OpenOutcome ((w, log), ok channels) =
        (1 ≤ n) × (n ≤ max_channels_per_transaction) × RanOnce log channels
    OpenOutcome ((w, log), err (invalid_number_of_channels m)) =
        (m ≡ n) × (log ≡ []) × ((n ≡ 0) ⊎ (max_channels_per_transaction < n))
    OpenOutcome ((w, log), err unexpected_error) =
        (1 ≤ n)
        × (n ≤ max_channels_per_transaction)
        × (((log ≡ []) × Breaks) ⊎ ((channels : List ChannelAccount) × RanOnce log channels))
    OpenOutcome ((w, log), err (of_colibri e)) =
        (1 ≤ n)
        × (n ≤ max_channels_per_transaction)
        × (((log ≡ []) × (platform.create_pipeline ≡ err (colibri_error e)))
            ⊎ ((channels : List ChannelAccount) × RanOnce log channels))

    -- What stops `open` before the pipeline, or what it is given.
    abbrev OpeningOutcome :
        List ChannelAccount
        → Result (Thrown Colibri) (List ChannelOperation × List SignerObject)
        → Type 0
    OpeningOutcome channels (ok (ops, signers)) =
        (address : Text) × (sponsor.address ≡ some address)
        × (ops ≡ opening_operations address b channels)
    OpeningOutcome channels (err (colibri_error e)) =
        platform.create_pipeline ≡ err (colibri_error e)
    OpeningOutcome channels (err other_error) = Breaks
