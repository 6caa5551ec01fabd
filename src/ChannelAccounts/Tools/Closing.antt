-- ===== src/ChannelAccounts/Tools/Closing.antt =====
-- Which runs of the pipeline `ChannelAccounts.close` of plugins/channel-accounts/src/tools makes.
use colibri.Common.{
  ℕ, suc, ◌≡◌, refl, sym, ◌∙◌, ap, subst, Option, none, some, Option-cases, Bool-cases, List, [],
  ◌∷◌, ◌++◌, append_assoc, append-nil, Text, All, Result, ok, err, ◌⊎◌, inl, inr, take, arith,
  ok-injective, bind-eq-ok,
}
use colibri.ChannelAccounts.Pool.{SignerObject}
use colibri.ChannelAccounts.Plugin.{append_unique_signers}
use colibri.ChannelAccounts.Tools.{
  GivenAccount, Thrown, Platform, ChannelOperation, account_merge, EntrySigner,
  max_channels_per_transaction, made, all_accepted, given, caught, merges, chunk_channels,
  chunks_from, and_then, close_signer, close_signers, close_batch, close_batches, close_channels,
}
use colibri.ChannelAccounts.Tools.Batches.{concat, IsBatch, chunk_channels_lem}

abbrev pub Log : Type 0
Log = List (List ChannelOperation)

-- The platform, with the operations of every run of the pipeline in a log.
abbrev pub logged : {W Colibri : Type 0} → Platform W Colibri → Platform (W × Log) Colibri
logged platform = record {
  create_channel_account =
      λ (w, log). let (w', channel) = platform.create_channel_account w in ((w', log), channel);
  accepts = platform.accepts;
  create_pipeline = platform.create_pipeline;
  create_rpc = platform.create_rpc;
  get_account_entry = λ address (w, log).
      let (w', entry) = platform.get_account_entry address w in ((w', log), entry);
  run_pipeline = λ operations signers (w, log).
      let (w', result) = platform.run_pipeline operations signers w in
      ((w', log ++ operations ∷ []), result);
}

-- The operations are one for each channel, in order, that merges its account into the sponsor's.
abbrev pub Merges : GivenAccount → List GivenAccount → List ChannelOperation → Type 0
Merges sponsor [] [] = Unit
Merges sponsor [] (op ∷ ops) = ⊥
Merges sponsor (c ∷ channels) [] = ⊥
Merges sponsor (c ∷ channels) (op ∷ ops) =
    ((source : Text) × (destination : Text) × (c.address ≡ some source)
      × (sponsor.address ≡ some destination)
      × (op ≡ account_merge source destination))
    × Merges sponsor channels ops

-- The runs are the merges of the batches, in order.
abbrev pub EachMerges : GivenAccount → List (List GivenAccount) → Log → Type 0
EachMerges sponsor [] [] = Unit
EachMerges sponsor [] (run ∷ runs) = ⊥
EachMerges sponsor (batch ∷ batches) [] = ⊥
EachMerges sponsor (batch ∷ batches) (run ∷ runs) =
    Merges sponsor batch run × EachMerges sponsor batches runs

module _ {W Colibri : Type 0} (platform : Platform W Colibri) (sponsor : GivenAccount)
    (signers : List SignerObject) where
  -- The runs that come after a log are the merges of the batches in order, of all of them if there is no
  -- error.
  abbrev pub Merged :
      {E : Type 0} → Log → List (List GivenAccount) → (W × Log) × Result E (Unit {0}) → Type 0
  Merged log batches ((w, after), ok _) =
      (runs : Log) × (after ≡ log ++ runs) × EachMerges sponsor batches runs
  Merged log batches ((w, after), err e) =
      (done : ℕ) × (runs : Log) × (after ≡ log ++ runs)
      × EachMerges sponsor (take done batches) runs

  given-ok {ℓ} :
      {A : Type ℓ} (o : Option A) {a : A} → given {Colibri = Colibri} o ≡ ok a → o ≡ some a
  given-ok none h = cc
  given-ok (some a) h = ap (λ x. some x) (ok-injective h)

  made-ok :
      (ops : List ChannelOperation) {made_ops : List ChannelOperation}
      → made platform ops ≡ ok made_ops
      → ops ≡ made_ops
  made-ok ops h = elim (Bool-cases (all_accepted platform ops)) [
    | inl fine ↦ ok-injective (rw fine at h)
    | inr refused ↦ absurd (let broken = rw refused at h in cc)
  ]

  merges-Merges :
      (batch : List GivenAccount) (ops : List ChannelOperation)
      → merges platform sponsor batch ≡ ok ops
      → Merges sponsor batch ops
  unfolding merges
  merges-Merges [] ops h = subst (Merges sponsor []) (ok-injective h) tt
  merges-Merges (c ∷ batch) ops h =
      let (source, a, h1) = bind-eq-ok (given {Colibri = Colibri} c.address) _ h in
      let (destination, b, h2) = bind-eq-ok (given {Colibri = Colibri} sponsor.address) _ h1 in
      let (operation, m, h3) =
        bind-eq-ok (made platform (account_merge source destination ∷ [])) _ h2 in
      let (rest, r, h4) = bind-eq-ok (merges platform sponsor batch) _ h3 in
      subst (Merges sponsor (c ∷ batch))
        (ap (λ xs. xs ++ rest) (made-ok (account_merge source destination ∷ []) m)
          ∙ ok-injective h4)
        (
          (source, destination, given-ok c.address a, given-ok sponsor.address b, refl),
          merges-Merges batch rest r,
        )

  -- What leaves the log as it is.
  abbrev Keeps : {A : Type 0} → Log → (W × Log) × A → Type 0
  Keeps log ((w, after), a) = after ≡ log

  and_then-Keeps :
      {A B : Type 0} (log : Log) (x : (W × Log) × Result (Thrown Colibri) A)
      (next : A → W × Log → (W × Log) × Result (Thrown Colibri) B)
      → Keeps log x
      → ((a : A) (w : W) → Keeps log (next a (w, log)))
      → Keeps log (and_then (logged platform) x next)
  and_then-Keeps log ((w, after), ok a) next same rest =
      subst (λ (l : Log). Keeps log (next a (w, l))) (sym same) (rest a w)
  and_then-Keeps log ((w, after), err e) next same rest = same

  module _ (sponsor_signer : SignerObject) (batch : List GivenAccount) (log : Log)
      (rest_keeps : (w : W)
        → Keeps log (close_signers (logged platform) sponsor sponsor_signer batch (w, log))) where
    signer-Keeps :
        (w : W) (r : Result (Thrown Colibri) SignerObject)
        → Keeps log (
            and_then
              (logged platform)
              ((w, log), r)
              λ signer w2.
                and_then
                  (logged platform)
                  (close_signers (logged platform) sponsor sponsor_signer batch w2)
                  λ rest w3. (w3, ok (signer ∷ rest)))
    signer-Keeps w (err e) = refl
    signer-Keeps w (ok signer) =
        and_then-Keeps {A = List SignerObject} {B = List SignerObject} log
          (close_signers (logged platform) sponsor sponsor_signer batch (w, log))
          (λ rest w3. (w3, ok (signer ∷ rest))) (rest_keeps w) (λ rest w3. refl)

    entry-Keeps :
        (c : GivenAccount) (address : Text) (w : W) (entry : Option (List EntrySigner))
        → Keeps log (
            and_then
              (logged platform)
              ((w, log), given entry)
              λ entry w1.
                and_then
                  (logged platform)
                  (w1, close_signer (logged platform) sponsor sponsor_signer c address entry)
                  λ signer w2.
                    and_then
                      (logged platform)
                      (close_signers (logged platform) sponsor sponsor_signer batch w2)
                      λ rest w3. (w3, ok (signer ∷ rest)))
    entry-Keeps c address w none = refl
    entry-Keeps c address w (some entry) = signer-Keeps w _

  close_signers-Keeps :
      (sponsor_signer : SignerObject) (batch : List GivenAccount) (w : W) (log : Log)
      → Keeps log (close_signers (logged platform) sponsor sponsor_signer batch (w, log))
  unfolding close_signers
  close_signers-Keeps sponsor_signer [] w log = refl
  close_signers-Keeps sponsor_signer (c ∷ batch) w log = elim (Option-cases c.address) [
    | inl thrown ↦ rw thrown refl
    | inr (address, found) ↦ rw found (
        entry-Keeps sponsor_signer batch log (λ w'. close_signers-Keeps sponsor_signer batch w' log)
          c address _ _)
  ]

  -- The log after one batch.
  abbrev BatchMerged :
      Log → List GivenAccount → (W × Log) × Result (Thrown Colibri) (Unit {0}) → Type 0
  BatchMerged log batch ((w, after), ok _) =
      (run : List ChannelOperation) × (after ≡ log ++ run ∷ []) × Merges sponsor batch run
  BatchMerged log batch ((w, after), err e) =
      (after ≡ log)
      ⊎ ((run : List ChannelOperation) × (after ≡ log ++ run ∷ []) × Merges sponsor batch run)

  ran-BatchMerged :
      (log : Log) (batch : List GivenAccount) (run : List ChannelOperation) (w : W)
      (r : Result (Thrown Colibri) (Unit {0}))
      → Merges sponsor batch run
      → BatchMerged log batch ((w, log ++ run ∷ []), r)
  ran-BatchMerged log batch run w (ok _) h = (run, refl, h)
  ran-BatchMerged log batch run w (err e) h = inr (run, refl, h)

  merged-BatchMerged :
      (log : Log) (batch : List GivenAccount) (closing : List SignerObject) (w : W)
      (r : Result (Thrown Colibri) (List ChannelOperation))
      → merges platform sponsor batch ≡ r
      → BatchMerged log batch (
          and_then
            (logged platform)
            ((w, log), r)
            λ operations w2.
              (logged platform).run_pipeline operations (append_unique_signers signers closing) w2)
  merged-BatchMerged log batch closing w (err e) h = inl refl
  merged-BatchMerged log batch closing w (ok run) h =
      let (w', result) = platform.run_pipeline run (append_unique_signers signers closing) w in
      ran-BatchMerged log batch run w' result (merges-Merges batch run h)

  signed-BatchMerged :
      (log : Log) (batch : List GivenAccount)
      (x : (W × Log) × Result (Thrown Colibri) (List SignerObject))
      → Keeps log x
      → BatchMerged log batch (
          and_then (logged platform) x λ closing w1.
            and_then
              (logged platform)
              (w1, merges platform sponsor batch)
              λ operations w2.
                (logged platform).run_pipeline operations
                  (append_unique_signers signers closing)
                  w2)
  signed-BatchMerged log batch ((w, after), ok closing) same =
      subst
        (λ (l : Log). BatchMerged log batch (
          and_then (logged platform) ((w, l), merges platform sponsor batch)
            λ operations w2.
              (logged platform).run_pipeline operations (append_unique_signers signers closing) w2))
        (sym same) (merged-BatchMerged log batch closing w _ refl)
  signed-BatchMerged log batch ((w, after), err e) same = inl same

  -- The merges of a batch do not depend on the log.
  logged-merges :
      (batch : List GivenAccount)
      → merges (logged platform) sponsor batch ≡ merges platform sponsor batch
  unfolding merges all_accepted
  logged-merges [] = refl
  logged-merges (c ∷ batch) = rw (logged-merges batch) refl

  close_batch-BatchMerged :
      (sponsor_signer : SignerObject) (log : Log) (batch : List GivenAccount) (w : W)
      → BatchMerged log batch
          (close_batch (logged platform) sponsor sponsor_signer signers batch (w, log))
  unfolding close_batch
  close_batch-BatchMerged sponsor_signer log batch w =
      rw (logged-merges batch)
        (signed-BatchMerged log batch _ (close_signers-Keeps sponsor_signer batch w log))

  prepend-Merged :
      (log : Log) (batch : List GivenAccount) (batches : List (List GivenAccount))
      (run : List ChannelOperation) (x : (W × Log) × Result (Thrown Colibri) (Unit {0}))
      → Merges sponsor batch run
      → Merged (log ++ run ∷ []) batches x
      → Merged log (batch ∷ batches) x
  prepend-Merged log batch batches run ((w, after), ok _) now (runs, h, all) =
      (run ∷ runs, h ∙ append_assoc log (run ∷ []) runs, (now, all))
  prepend-Merged log batch batches run ((w, after), err e) now (done, runs, h, all) =
      (suc done, run ∷ runs, h ∙ append_assoc log (run ∷ []) runs, (now, all))

  next-Merged :
      (log : Log) (batch : List GivenAccount) (batches : List (List GivenAccount))
      (x : (W × Log) × Result (Thrown Colibri) (Unit {0}))
      (next : W × Log → (W × Log) × Result (Thrown Colibri) (Unit {0}))
      → BatchMerged log batch x
      → ((l : Log) (w : W) → Merged l batches (next (w, l)))
      → Merged log (batch ∷ batches) (and_then (logged platform) x λ _ w1. next w1)
  next-Merged log batch batches ((w, after), ok _) next (run, same, now) rest =
      prepend-Merged log batch batches run (next (w, after)) now
        (subst (λ (l : Log). Merged l batches (next (w, after))) same (rest after w))
  next-Merged log batch batches ((w, after), err e) next (inl none_ran) rest =
      (0, [], none_ran ∙ sym (append-nil log), tt)
  next-Merged log batch batches ((w, after), err e) next (inr (run, one_ran, now)) rest =
      (1, run ∷ [], one_ran, (now, tt))

  close_batches-Merged :
      (sponsor_signer : SignerObject) (batches : List (List GivenAccount)) (log : Log) (w : W)
      → Merged log batches
          (close_batches (logged platform) sponsor sponsor_signer signers batches (w, log))
  unfolding close_batches
  close_batches-Merged sponsor_signer [] log w = ([], sym (append-nil log), tt)
  close_batches-Merged sponsor_signer (batch ∷ batches) log w =
      next-Merged log batch batches _
        (close_batches (logged platform) sponsor sponsor_signer signers batches)
        (close_batch-BatchMerged sponsor_signer log batch w)
        (λ l w1. close_batches-Merged sponsor_signer batches l w1)

  caught-Merged :
      (batches : List (List GivenAccount)) (x : (W × Log) × Result (Thrown Colibri) (Unit {0}))
      → Merged [] batches x
      → Merged [] batches (caught (logged platform) x)
  caught-Merged batches ((w, after), ok _) h = h
  caught-Merged batches ((w, after), err (Thrown.colibri_error e)) h = h
  caught-Merged batches ((w, after), err Thrown.other_error) h = h

  started-Merged :
      (batches : List (List GivenAccount)) (w : W) (r : Result (Thrown Colibri) SignerObject)
      → Merged [] batches (
          and_then
            (logged platform)
            ((w, []), r)
            λ sponsor_signer w1.
              close_batches (logged platform) sponsor sponsor_signer signers batches w1)
  started-Merged batches w (ok sponsor_signer) = close_batches-Merged sponsor_signer batches [] w
  started-Merged batches w (err e) = (0, [], refl, tt)

  -- The same for all channels.
  close_all-Merged :
      (channels : List GivenAccount) (w : W)
      → Merged []
          (chunk_channels channels max_channels_per_transaction)
          (close_channels (logged platform) channels sponsor signers (w, []))
  unfolding close_channels chunk_channels chunks_from
  close_all-Merged [] w = ([], refl, tt)
  close_all-Merged (c ∷ channels) w = caught-Merged _ _ (started-Merged _ w _)

-- For every pipeline and server: there are batches of at least one and at most 15 channels, which one
-- after the other are the channels in order, such that closing runs the pipeline once for each batch, in
-- order, with one operation for each channel of the batch, in order, that merges the account of the
-- channel into the account of the sponsor; where it ends in an error, it has done so for some of the
-- first batches and for no other.
pub close_channels-Merged :
    {W Colibri : Type 0} (platform : Platform W Colibri) (channels : List GivenAccount)
    (sponsor : GivenAccount) (signers : List SignerObject) (w : W)
    → (batches : List (List GivenAccount)) × (concat batches ≡ channels)
      × All (IsBatch max_channels_per_transaction) batches
      × Merged platform sponsor signers [] batches
          (close_channels (logged platform) channels sponsor signers (w, []))
close_channels-Merged platform channels sponsor signers w =
    let (joined, sized) = chunk_channels_lem channels max_channels_per_transaction (omega arith) in
    (
      chunk_channels channels max_channels_per_transaction,
      joined,
      sized,
      close_all-Merged platform sponsor signers channels w,
    )
