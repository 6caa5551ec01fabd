-- ===== src/Streamer/Ledgers.antt =====
-- rpc-streamer/src/variants/ledger/index.ts: one ledger at a time, live or from an archive.
use colibri.Common.{
  ℕ, ◌+◌, Bool, true, false, Option, some, List, [], ◌∷◌, if◌then◌else◌, ◌==◌, ltb, ok,
}
use colibri.Streamer.Effect.{
  State, Effect, pure, ◌>>=◌, Options, maybe_checkpoint, attempt, IngestRound, go_on, returns,
  while_within,
}
use colibri.Streamer.Modes.{LiveIngestionResult, RpcStreamer, Health, passed}

-- An entry of a response, and the ledger that `Ledger.fromEntry` makes of it: its number, and which
-- object it is.
pub record LedgerEntry : Type 0 where
  pub sequence : ℕ
  pub handle : ℕ

-- A missing list of ledgers is read as an empty one.
pub record LedgersResponse : Type 0 where
  pub ledgers : List LedgerEntry
  pub latest_ledger : ℕ

-- `_getLedgers` with a limit of 1, the handler of the data with the `Ledger.fromEntry` before it, and
-- the wait between archive fetches.
pub record LedgerSource (W : Type 0) : Type 0 where
  pub get_ledgers : ℕ → Effect W LedgersResponse
  pub on_ledger : LedgerEntry → Effect W (Unit {0})
  pub wait_archival : State W → State W

module _ {W : Type 0} where
  abbrev live_result : ℕ → Bool → Bool → Effect W LiveIngestionResult
  live_result n should_wait hit_stop_ledger =
      pure
        (record { next_ledger = n; should_wait = should_wait; hit_stop_ledger = hit_stop_ledger })

  abbrev ingest_first :
      LedgerSource W → ℕ → Option ℕ → ℕ → List LedgerEntry → Effect W LiveIngestionResult
  ingest_first s sequence stop_ledger latest [] = live_result sequence true false
  ingest_first s sequence stop_ledger latest (entry ∷ _) =
      if passed stop_ledger entry.sequence
      then live_result entry.sequence false true
      else (s.on_ledger entry >>= λ _. live_result (entry.sequence + 1) (latest == sequence) false)

  -- `ingestLiveLedger`
  unfoldable pub ingest_live_ledger : LedgerSource W → ℕ → Option ℕ → Effect W LiveIngestionResult
  ingest_live_ledger s sequence stop_ledger = do
    response ← s.get_ledgers sequence
    ingest_first s sequence stop_ledger response.latest_ledger response.ledgers

  abbrev wait_then : LedgerSource W → ℕ → Effect W IngestRound
  wait_then s n st = (s.wait_archival st, ok (go_on n))

  abbrev archive_first :
      LedgerSource W → Options W → ℕ → ℕ → List LedgerEntry → Effect W IngestRound
  archive_first s o stop_ledger current [] = pure (go_on (current + 1))
  archive_first s o stop_ledger current (entry ∷ _) =
      if ltb stop_ledger entry.sequence
      then pure (returns entry.sequence)
      else (s.on_ledger entry >>= λ _.
          maybe_checkpoint o current >>= λ _. wait_then s (entry.sequence + 1))

  -- A round of `ingestArchiveLedgers`; its whole body stands in the `try` block.
  unfoldable pub archive_ledger_round : LedgerSource W → Options W → ℕ → ℕ → Effect W IngestRound
  unfolding attempt maybe_checkpoint
  archive_ledger_round s o stop_ledger current =
      attempt go_on o current
        (s.get_ledgers current >>= λ response.
          archive_first s o stop_ledger current response.ledgers)
        pure

  -- `ingestArchiveLedgers`
  unfoldable pub ingest_archive_ledgers : ℕ → LedgerSource W → ℕ → ℕ → Options W → Effect W ℕ
  unfolding while_within archive_ledger_round
  ingest_archive_ledgers fuel s start_ledger stop_ledger o =
      while_within fuel (archive_ledger_round s o stop_ledger) stop_ledger start_ledger

  -- `createLedgerStreamer`: a live and an archive source, and the rest of the streamer.
  unfoldable pub create_ledger_streamer :
      ℕ
      → LedgerSource W
      → LedgerSource W
      → Effect W Health
      → (has_archive_rpc skip : Bool) → (State W → State W)
      → RpcStreamer W
  create_ledger_streamer fuel live archive get_health has_archive_rpc skip wait = record {
    get_health = get_health;
    ingest_live = some (ingest_live_ledger live);
    ingest_archive = some (ingest_archive_ledgers fuel archive);
    has_archive_rpc = has_archive_rpc;
    skip_ledger_wait_if_behind = skip;
    wait_for_ledger = wait;
  }
