-- ===== src/ChannelAccounts/Tools/Tests.antt =====
-- Runs of the tools on a small platform, and instances of the theorems.
use colibri.Common.{
  ℕ, ◌+◌, ◌≡◌, refl, true, none, some, List, [], ◌∷◌, codes, Text, ok, err, All, replicate, ltb,
  if◌then◌else◌, text_eq,
}
use colibri.ChannelAccounts.Tools.{
  GivenAccount, account_merge, ChannelOperation, colibri_error, Platform, of_colibri,
  unexpected_error, max_channels_per_transaction, chunk_channels, chunks_from, some_signs,
  all_accepted, merges, close_signers, close_batch, close_batches, close_channels, create_channels,
  opening, open_channels,
}
use colibri.ChannelAccounts.Tools.Batches.{concat, IsBatch}
use colibri.ChannelAccounts.Tools.Closing.{logged, Merged, close_channels-Merged}

abbrev sponsor : GivenAccount
sponsor = record {
  address = some (codes "GS");
  signer = some (record { public_key = codes "GS"; handle = 9 });
}

abbrev broken_sponsor : GivenAccount
broken_sponsor = record sponsor { address = none }

-- The world counts the calls; the pipeline fails from the tenth on.
abbrev platform : Platform ℕ Text
platform = record {
  create_channel_account = λ w.
      (w + 1, record { address = w ∷ []; signer = record { public_key = w ∷ []; handle = w } });
  accepts = λ op. true;
  create_pipeline = ok tt;
  create_rpc = ok tt;
  get_account_entry = λ address w. (w, some (record { weight = 1; key = some (codes "GS") } ∷ []));
  run_pipeline = λ operations signers w.
      (w + 1, if ltb w 10 then ok tt else err (colibri_error (codes "failed")));
}

abbrev channel : GivenAccount
channel = record {
  address = some (codes "GA");
  signer = some (record { public_key = codes "GA"; handle = 1 });
}

abbrev many : List GivenAccount
many = replicate 17 channel

abbrev merging : ℕ → List ChannelOperation
merging n = replicate n (account_merge (codes "GA") (codes "GS"))

closes : Unit {0}
unfolding close_channels chunk_channels chunks_from close_batches close_batch close_signers
    some_signs text_eq merges all_accepted
closes = tt

closes_in_two :
    close_channels (logged platform) many sponsor [] (0, [])
    ≡ ((2, merging 15 ∷ merging 2 ∷ []), ok tt)
unfolding closes
closes_in_two = refl

fails_on_second :
    close_channels (logged platform) many sponsor [] (9, [])
    ≡ ((11, merging 15 ∷ merging 2 ∷ []), err (of_colibri (codes "failed")))
unfolding closes
fails_on_second = refl

-- A sponsor or a channel whose address throws.
wraps_unexpected :
    (open_channels (logged platform) 1 broken_sponsor true [] (0, [])
      ≡ ((1, []), err unexpected_error))
    × (close_channels (logged platform) (record channel { address = none } ∷ []) sponsor [] (0, [])
        ≡ ((0, []), err unexpected_error))
unfolding closes open_channels create_channels opening
wraps_unexpected = (refl, refl)

close_channels-Merged_example :
    (batches : List (List GivenAccount)) × (concat batches ≡ many)
    × All (IsBatch max_channels_per_transaction) batches
    × Merged platform sponsor [] [] batches
        (close_channels (logged platform) many sponsor [] (0, []))
close_channels-Merged_example = close_channels-Merged platform many sponsor [] 0
