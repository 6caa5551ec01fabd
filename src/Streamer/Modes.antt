-- ===== src/Streamer/Modes.antt =====
-- `startLive`, `startArchive` and `start` of rpc-streamer/src/streamer.ts.
use colibri.Common.{
  ℕ, ◌+◌, ◌-◌, min, Bool, true, false, ◌&&◌, not, Option, none, some, ok, if◌then◌else◌, ltb, leb,
}
use colibri.Streamer.Effect.{
  StreamerError, streamer, State, Effect, pure, throws, ◌>>=◌, ◌>>◌, require, set_running, stop,
  finally_stop, Options, maybe_checkpoint, attempt, Round, next, break, while_running,
}

pub record Health : Type 0 where
  pub healthy : Bool
  pub latest_ledger : ℕ
  pub oldest_ledger : ℕ

pub record LiveIngestionResult : Type 0 where
  pub next_ledger : ℕ
  pub should_wait : Bool
  pub hit_stop_ledger : Bool

-- The fields of a streamer that its methods read. The handler of the data is part of the ingestors.
-- `wait_for_ledger` is `waitFor("ledger")`, which cannot fail.
pub record RpcStreamer (W : Type 0) : Type 0 where
  pub get_health : Effect W Health
  pub ingest_live : Option (ℕ → Option ℕ → Effect W LiveIngestionResult)
  pub ingest_archive : Option (ℕ → ℕ → Options W → Effect W ℕ)
  pub has_archive_rpc : Bool
  pub skip_ledger_wait_if_behind : Bool
  pub wait_for_ledger : State W → State W

abbrev pub or_latest : Option ℕ → ℕ → ℕ
or_latest none latest = latest
or_latest (some start) latest = start

-- `isDefined(stopLedger) && ledger > stopLedger`
abbrev pub passed : Option ℕ → ℕ → Bool
passed none ledger = false
passed (some stop_ledger) ledger = ltb stop_ledger ledger

-- What the `try` block of a live round leaves behind.
pub data Ingested : Type 0 where
  hit_stop : Ingested
  advanced : (next_ledger : ℕ) (should_wait : Bool) → Ingested

-- The target of an archive round of `start`.
abbrev pub archive_target : Option ℕ → ℕ → ℕ
archive_target none oldest = oldest - 1
archive_target (some stop_ledger) oldest = min (oldest - 1) stop_ledger

module _ {W : Type 0} where
  abbrev pub wait : RpcStreamer W → Effect W (Unit {0})
  wait s st = (s.wait_for_ledger st, ok tt)

  -- The shared start of the `try` block of a live round: ingestion, and a checkpoint after it.
  unfoldable pub ingest_round :
      (ℕ → Option ℕ → Effect W LiveIngestionResult) → Options W → ℕ → Effect W Ingested
  unfolding maybe_checkpoint
  ingest_round ingest o current = do
    r ← ingest current o.stop_ledger
    if r.hit_stop_ledger
        then pure hit_stop
        else (maybe_checkpoint o current >>= λ _. pure (advanced r.next_ledger r.should_wait))

  abbrev pub stop_and_break : Effect W Round
  stop_and_break = stop >>= λ _. pure break

  abbrev pub after_live : RpcStreamer W → Options W → Ingested → Effect W Round
  after_live s o hit_stop = stop_and_break
  after_live s o (advanced n should_wait) =
      if should_wait && not (passed o.stop_ledger n)
      then (wait s >>= λ _. pure (next n))
      else pure (next n)

  -- A round of the loop of `startLive`.
  unfoldable pub live_round :
      RpcStreamer W → (ℕ → Option ℕ → Effect W LiveIngestionResult) → Options W → ℕ → Effect W Round
  unfolding attempt ingest_round
  live_round s ingest o current =
      if passed o.stop_ledger current
      then stop_and_break
      else attempt next o current (ingest_round ingest o current) (after_live s o)

  unfoldable pub live_body :
      ℕ
      → RpcStreamer W
      → (ℕ → Option ℕ → Effect W LiveIngestionResult)
      → Options W
      → Effect W (Unit {0})
  live_body fuel s ingest o = do
    health ← s.get_health
    require health.healthy StreamerError.rpc_not_healthy
    let current = or_latest o.start_ledger health.latest_ledger
    require (leb (health.oldest_ledger + 2) current) StreamerError.ledger_too_old
    require (leb current health.latest_ledger) StreamerError.ledger_too_high
    while_running fuel (live_round s ingest o) current

  abbrev pub live_with :
      ℕ
      → RpcStreamer W
      → Options W
      → Option (ℕ → Option ℕ → Effect W LiveIngestionResult)
      → Effect W (Unit {0})
  live_with fuel s o none = throws (streamer StreamerError.missing_live_ingestor)
  live_with fuel s o (some ingest) =
      set_running true >>= λ _. finally_stop (live_body fuel s ingest o)

  abbrev pub unless_running : {A : Type 0} → Effect W A → Effect W A
  unless_running m st =
      (if st.is_running then throws (streamer StreamerError.already_running) else m) st

  unfoldable pub start_live : ℕ → RpcStreamer W → Options W → Effect W (Unit {0})
  unfolding live_body while_running live_round
  start_live fuel s o = unless_running (live_with fuel s o s.ingest_live)

  abbrev pub archive_with :
      RpcStreamer W
      → Options W
      → ℕ
      → ℕ
      → Option (ℕ → ℕ → Options W → Effect W ℕ)
      → Effect W (Unit {0})
  archive_with s o start_ledger stop_ledger none =
      throws (streamer StreamerError.missing_archive_ingestor)
  archive_with s o start_ledger stop_ledger (some ingest) = do
    require s.has_archive_rpc StreamerError.missing_archive_rpc
    require (leb start_ledger stop_ledger) StreamerError.invalid_sequence_range
    set_running true
    finally_stop (ingest start_ledger stop_ledger o >>= λ _. stop)

  -- `startArchive`, whose start and stop ledgers are both required.
  unfoldable pub start_archive : RpcStreamer W → Options W → ℕ → ℕ → Effect W (Unit {0})
  start_archive s o start_ledger stop_ledger =
      unless_running (archive_with s o start_ledger stop_ledger s.ingest_archive)

  abbrev pub archive_round_with :
      Options W → ℕ → ℕ → Option (ℕ → ℕ → Options W → Effect W ℕ) → Effect W Round
  archive_round_with o current oldest none =
      throws (streamer StreamerError.missing_archive_ingestor)
  archive_round_with o current oldest (some ingest) =
      attempt next o current (ingest current (archive_target o.stop_ledger oldest) o)
        (λ n. pure (next n))

  abbrev pub wait_and_next : RpcStreamer W → ℕ → Effect W Round
  wait_and_next s n = wait s >>= λ _. pure (next n)

  -- The end of the `try` block of a live round of `start`: the ledger has moved on to `n`, so a
  -- failing health check is handled, and skipped, as the ledger `n`.
  abbrev pub after_auto : RpcStreamer W → Options W → Ingested → Effect W Round
  after_auto s o hit_stop = stop_and_break
  after_auto s o (advanced n should_wait) =
      if passed o.stop_ledger n
      then stop_and_break
      else if not should_wait
      then pure (next n)
      else if s.skip_ledger_wait_if_behind
      then attempt next o n s.get_health
          (λ h. if ltb n (h.latest_ledger - 1) then pure (next n) else wait_and_next s n)
      else wait_and_next s n

  abbrev pub live_round_with :
      RpcStreamer W
      → Options W
      → ℕ
      → Option (ℕ → Option ℕ → Effect W LiveIngestionResult)
      → Effect W Round
  live_round_with s o current none = throws (streamer StreamerError.missing_live_ingestor)
  live_round_with s o current (some ingest) =
      attempt next o current (ingest_round ingest o current) (after_auto s o)

  abbrev pub choose_round : RpcStreamer W → Options W → ℕ → Health → Effect W Round
  choose_round s o current health = do
    require (leb current health.latest_ledger) StreamerError.ledger_too_high
    if ltb current (health.oldest_ledger + 2)
        then (require s.has_archive_rpc StreamerError.ledger_too_old >>= λ _.
            archive_round_with o current (health.oldest_ledger + 2) s.ingest_archive)
        else live_round_with s o current s.ingest_live

  -- A round of the loop of `start`.
  unfoldable pub auto_round : RpcStreamer W → Options W → ℕ → Effect W Round
  unfolding attempt ingest_round
  auto_round s o current =
      if passed o.stop_ledger current
      then stop_and_break
      else (s.get_health >>= choose_round s o current)

  unfoldable pub auto_body : ℕ → RpcStreamer W → Options W → Effect W (Unit {0})
  auto_body fuel s o = do
    health ← s.get_health
    require health.healthy StreamerError.rpc_not_healthy
    while_running fuel (auto_round s o) (or_latest o.start_ledger health.latest_ledger)

  unfoldable pub start : ℕ → RpcStreamer W → Options W → Effect W (Unit {0})
  unfolding auto_body while_running auto_round
  start fuel s o = unless_running (set_running true >>= λ _. finally_stop (auto_body fuel s o))
