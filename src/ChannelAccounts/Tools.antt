-- ===== src/ChannelAccounts/Tools.antt =====
-- plugins/channel-accounts/src/tools: `ChannelAccounts.open` and `ChannelAccounts.close`, with helpers.ts.
-- The required arguments are given, so MISSING_ARG is not thrown.
pub mod Batches
pub mod Closing
pub mod Opening
mod Tests
use colibri.Common.{
  ℕ, zero, suc, ◌+◌, ◌-◌, ◌*◌, ◌/◌, Bool, true, false, not, ◌&&◌, ◌||◌, Option, none, some, List,
  [], ◌∷◌, ◌++◌, map, Text, codes, text_eq, Result, ok, err, ◌>>=◌, ◌>>◌, ltb, if◌then◌else◌,
  length, take, drop,
}
use colibri.ChannelAccounts.Pool.{ChannelAccount, SignerObject}
use colibri.ChannelAccounts.Plugin.{append_unique_signers}

abbrev pub max_channels_per_transaction : ℕ
max_channels_per_transaction = 15

-- The operations that the tools build, with the arguments that they give.
pub data ChannelOperation : Type 0 where
  begin_sponsoring_future_reserves : (source sponsored_id : Text) → ChannelOperation
  create_account : (source destination starting_balance : Text) → ChannelOperation
  set_options : (source ed25519_public_key : Text) → (weight : ℕ) → ChannelOperation
  end_sponsoring_future_reserves : (source : Text) → ChannelOperation
  account_merge : (source destination : Text) → ChannelOperation

-- A signer of an account entry: its weight, and its ed25519 key as a strkey where it has one.
pub record EntrySigner : Type 0 where
  pub weight : ℕ
  pub key : Option Text

-- `numberOfChannels` out of bounds, any error that is none of the library's, and those of the library.
pub data ToolsError (Colibri : Type 0) : Type 0 where
  invalid_number_of_channels : ℕ → ToolsError Colibri
  unexpected_error : ToolsError Colibri
  of_colibri : Colibri → ToolsError Colibri

-- What is thrown inside a `try`: a `ColibriError`, or another error.
pub data Thrown (Colibri : Type 0) : Type 0 where
  colibri_error : Colibri → Thrown Colibri
  other_error : Thrown Colibri

-- An account object that the caller gives: its `address()` and its `signer()`, where `none` is a throw.
pub record GivenAccount : Type 0 where
  pub address : Option Text
  pub signer : Option SignerObject

-- What the tools call, on a world: the keys that are made, the methods of `Operation`, which throw where
-- they do not accept their arguments, the making of the pipeline and of the RPC server, the server, where
-- `none` is a throw, and the classic pipeline, with the operations and the signers of the configuration.
pub record Platform (W Colibri : Type 0) : Type 0 where
  pub create_channel_account : W → W × ChannelAccount
  pub accepts : ChannelOperation → Bool
  pub create_pipeline : Result (Thrown Colibri) (Unit {0})
  pub create_rpc : Result (Thrown Colibri) (Unit {0})
  pub get_account_entry : Text → W → W × Option (List EntrySigner)
  pub run_pipeline :
      List ChannelOperation → List SignerObject → W → W × Result (Thrown Colibri) (Unit {0})

abbrev pub channel_operations : Text → Bool → ChannelAccount → List ChannelOperation
channel_operations sponsor set_sponsor_as_signer channel =
    begin_sponsoring_future_reserves sponsor channel.address
    ∷ create_account sponsor channel.address (codes "0")
    ∷ ((if set_sponsor_as_signer then set_options channel.address sponsor 1 ∷ [] else [])
        ++ end_sponsoring_future_reserves channel.address ∷ [])

-- `channels.flatMap(…)`, with the address of the sponsor.
pub opening_operations : Text → Bool → List ChannelAccount → List ChannelOperation
opening_operations sponsor set_sponsor_as_signer [] = []
opening_operations sponsor set_sponsor_as_signer (channel ∷ channels) =
    channel_operations sponsor set_sponsor_as_signer channel
    ++ opening_operations sponsor set_sponsor_as_signer channels

abbrev pub signer_of : ChannelAccount → SignerObject
signer_of channel = channel.signer

-- `channels.slice(start, end)`
abbrev pub slice : List GivenAccount → ℕ → ℕ → List GivenAccount
slice channels start end = take (end - start) (drop start channels)

pub chunks_from : List GivenAccount → ℕ → ℕ → ℕ → List (List GivenAccount)
chunks_from channels size index zero = []
chunks_from channels size index (suc left) =
    slice channels (index * size) ((index + 1) * size) ∷ chunks_from channels size (index + 1) left

-- `Math.ceil(channels.length / size)` batches.
pub chunk_channels : List GivenAccount → ℕ → List (List GivenAccount)
chunk_channels channels size = chunks_from channels size 0 ((length channels + size - 1) / size)

abbrev pub is_key : Text → Option Text → Bool
is_key address none = false
is_key address (some key) = text_eq key address

-- A throw of `address()` counts as a signer that is not the sponsor.
pub some_signs : Option Text → List EntrySigner → Bool
some_signs none signers = false
some_signs (some address) [] = false
some_signs (some address) (s ∷ signers) =
    (ltb 0 s.weight && is_key address s.key) || some_signs (some address) signers

-- The signer that signs with the sponsor's for the address of a channel.
abbrev pub create_channel_proxy_signer : SignerObject → Text → SignerObject
create_channel_proxy_signer signer address = record { public_key = address; handle = signer.handle }

-- A call that throws another error than the library's.
abbrev pub given {ℓ} : {Colibri : Type 0} {A : Type ℓ} → Option A → Result (Thrown Colibri) A
given none = err other_error
given (some a) = ok a

module _ {W Colibri : Type 0} (platform : Platform W Colibri) where
  pub create_channels : ℕ → W → W × List ChannelAccount
  create_channels zero w = (w, [])
  create_channels (suc n) w =
      let (w1, channel) = platform.create_channel_account w in
      let (w2, channels) = create_channels n w1 in (w2, channel ∷ channels)

  -- The `catch` of `open` and `close`.
  abbrev pub caught :
      {A : Type 0} → W × Result (Thrown Colibri) A → W × Result (ToolsError Colibri) A
  caught (w, ok a) = (w, ok a)
  caught (w, err (colibri_error e)) = (w, err (of_colibri e))
  caught (w, err other_error) = (w, err unexpected_error)

  abbrev pub and_then :
      {A B : Type 0}
      → W × Result (Thrown Colibri) A
      → (A → W → W × Result (Thrown Colibri) B)
      → W × Result (Thrown Colibri) B
  and_then (w, ok a) next = next a w
  and_then (w, err e) next = (w, err e)

  pub all_accepted : List ChannelOperation → Bool
  all_accepted [] = true
  all_accepted (op ∷ ops) = platform.accepts op && all_accepted ops

  -- The calls of the methods of `Operation`; the first that does not accept its arguments throws.
  abbrev pub made : List ChannelOperation → Result (Thrown Colibri) (List ChannelOperation)
  made ops = if all_accepted ops then ok ops else err other_error

  -- What `open` gives to the pipeline.
  unfoldable pub opening :
      GivenAccount
      → Bool
      → List SignerObject
      → List ChannelAccount
      → Result (Thrown Colibri) (List ChannelOperation × List SignerObject)
  opening sponsor set_sponsor_as_signer signers channels = do
    address ← given sponsor.address
    operations ← made (opening_operations address set_sponsor_as_signer channels)
    platform.create_pipeline
    signer ← given sponsor.signer
    ok (operations, append_unique_signers signers (signer ∷ map signer_of channels))

  abbrev pub open_with :
      GivenAccount
      → Bool
      → List SignerObject
      → W × List ChannelAccount
      → W × Result (Thrown Colibri) (List ChannelAccount)
  open_with sponsor set_sponsor_as_signer signers (w, channels) =
      and_then (w, opening sponsor set_sponsor_as_signer signers channels)
        λ run w1. and_then (platform.run_pipeline run.0 run.1 w1) λ _ w2. (w2, ok channels)

  -- `ChannelAccounts.open`
  pub open_channels :
      ℕ
      → GivenAccount
      → Bool
      → List SignerObject
      → W
      → W × Result (ToolsError Colibri) (List ChannelAccount)
  open_channels n sponsor set_sponsor_as_signer signers w =
      if ltb n 1 || ltb max_channels_per_transaction n
      then (w, err (invalid_number_of_channels n))
      else caught (open_with sponsor set_sponsor_as_signer signers (create_channels n w))

  -- The signer for the channel with an address.
  abbrev pub close_signer :
      GivenAccount
      → SignerObject
      → GivenAccount
      → Text
      → List EntrySigner
      → Result (Thrown Colibri) SignerObject
  close_signer sponsor sponsor_signer channel address signers =
      if some_signs sponsor.address signers
      then ok (create_channel_proxy_signer sponsor_signer address)
      else given channel.signer

  -- `Promise.all` over a batch; its requests are made in order here, up to the first that fails.
  pub close_signers :
      GivenAccount
      → SignerObject
      → List GivenAccount
      → W
      → W × Result (Thrown Colibri) (List SignerObject)
  close_signers sponsor sponsor_signer [] w = (w, ok [])
  close_signers sponsor sponsor_signer (channel ∷ batch) w =
      and_then (w, given channel.address)
        λ address w0.
          and_then (let (w', entry) = platform.get_account_entry address w0 in (w', given entry))
            λ entry w1.
              and_then (w1, close_signer sponsor sponsor_signer channel address entry)
                λ signer w2.
                  and_then (close_signers sponsor sponsor_signer batch w2)
                    λ rest w3. (w3, ok (signer ∷ rest))

  -- `channelBatch.map(…)`
  unfoldable pub merges :
      GivenAccount → List GivenAccount → Result (Thrown Colibri) (List ChannelOperation)
  merges sponsor [] = ok []
  merges sponsor (channel ∷ batch) = do
    source ← given channel.address
    destination ← given sponsor.address
    operation ← made (account_merge source destination ∷ [])
    rest ← merges sponsor batch
    ok (operation ++ rest)

  pub close_batch :
      GivenAccount
      → SignerObject
      → List SignerObject
      → List GivenAccount
      → W
      → W × Result (Thrown Colibri) (Unit {0})
  close_batch sponsor sponsor_signer signers batch w =
      and_then (close_signers sponsor sponsor_signer batch w) λ closing w1.
        and_then (w1, merges sponsor batch)
          λ operations w2.
            platform.run_pipeline operations (append_unique_signers signers closing) w2

  pub close_batches :
      GivenAccount
      → SignerObject
      → List SignerObject
      → List (List GivenAccount)
      → W
      → W × Result (Thrown Colibri) (Unit {0})
  close_batches sponsor sponsor_signer signers [] w = (w, ok tt)
  close_batches sponsor sponsor_signer signers (batch ∷ batches) w =
      and_then (close_batch sponsor sponsor_signer signers batch w)
        λ _ w1. close_batches sponsor sponsor_signer signers batches w1

  -- What comes before the loop over the batches.
  abbrev pub closing_signer : GivenAccount → Result (Thrown Colibri) SignerObject
  closing_signer sponsor = do platform.create_pipeline; platform.create_rpc; given sponsor.signer

  -- `ChannelAccounts.close`
  pub close_channels :
      List GivenAccount
      → GivenAccount
      → List SignerObject
      → W
      → W × Result (ToolsError Colibri) (Unit {0})
  close_channels [] sponsor signers w = (w, ok tt)
  close_channels (c ∷ channels) sponsor signers w = caught (
      and_then (w, closing_signer sponsor)
        λ sponsor_signer w1.
          close_batches sponsor sponsor_signer signers
            (chunk_channels (c ∷ channels) max_channels_per_transaction) w1)
