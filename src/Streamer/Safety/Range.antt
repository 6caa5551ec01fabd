-- ===== src/Streamer/Safety/Range.antt =====
-- The ledgers that `start` of rpc-streamer/src/streamer.ts asks its ingestors for.
use colibri.Common.{
  ℕ, ◌+◌, ◌-◌, ◌≤◌, ◌<◌, true, false, not, Option, none, some, ◌≡◌, refl, if◌then◌else◌, leb, ltb,
  ltb→lt, arith,
}
use colibri.Streamer.Effect.{
  StreamerError, Thrown, State, Effect, pure, throws, ◌>>=◌, require, set_running, finally_stop,
  Options, maybe_checkpoint, attempt, next, while_running,
}
use colibri.Streamer.Modes.{
  Health, LiveIngestionResult, RpcStreamer, or_latest, passed, Ingested, hit_stop, advanced,
  archive_target, ingest_round, stop_and_break, archive_round_with, wait_and_next, after_auto,
  live_round_with, choose_round, auto_round, auto_body, start,
}
use colibri.Streamer.Safety.{
  Keeps, HandlersKeep, bind-Keeps, if-Keeps, require-Keeps, maybe_checkpoint-Keeps, attempt-Keeps,
  while_running-Keeps,
}

-- A property of the world, whether or not the streamer is running.
abbrev pub OfWorld : {W : Type 0} → (W → Type 0) → State W → Type 0
OfWorld Q st = Q st.world

-- What a streamer calls keeps `Q`; its ingestors need to do so only within the range of the options.
pub record KeepsInRange {W : Type 0} (Q : W → Type 0) (s : RpcStreamer W) (o : Options W)
    : Type 0 where
  pub handlers : HandlersKeep (OfWorld Q) o
  pub health : Keeps (OfWorld Q) s.get_health
  pub waiting : (st : State W) → Q st.world → Q ((s.wait_for_ledger st).world)
  pub live :
      (f : ℕ → Option ℕ → Effect W LiveIngestionResult)
      → s.ingest_live ≡ some f
      → (n : ℕ) → passed o.stop_ledger n ≡ false
      → Keeps (OfWorld Q) (f n o.stop_ledger)
  pub archive :
      (f : ℕ → ℕ → Options W → Effect W ℕ)
      → s.ingest_archive ≡ some f
      → (a b : ℕ) → a ≤ b
      → passed o.stop_ledger b ≡ false
      → Keeps (OfWorld Q) (f a b o)

-- The target of an archive round lies between the current ledger and the stop ledger.
archive_target_within :
    (stop : Option ℕ) (current oldest : ℕ)
    → passed stop current ≡ false
    → current < oldest
    → (current ≤ archive_target stop oldest) × (passed stop (archive_target stop oldest) ≡ false)
archive_target_within none current oldest h lt = (omega arith, refl)
archive_target_within (some stop) current oldest h lt = (ground arith, ground arith)

module _ {W : Type 0} (Q : W → Type 0) (s : RpcStreamer W) (o : Options W)
    (k : KeepsInRange Q s o) where
  wait_and_next-Keeps : (n : ℕ) → Keeps (OfWorld Q) (wait_and_next s n)
  wait_and_next-Keeps n st p = k.waiting st p

  ingest_round-Keeps :
      (f : ℕ → Option ℕ → Effect W LiveIngestionResult) (current : ℕ)
      → Keeps (OfWorld Q) (f current o.stop_ledger)
      → Keeps (OfWorld Q) (ingest_round f o current)
  unfolding ingest_round
  ingest_round-Keeps f current kf =
      bind-Keeps (OfWorld Q) (f current o.stop_ledger)
        (λ r.
          if r.hit_stop_ledger
          then pure hit_stop
          else (maybe_checkpoint o current >>= λ _. pure (advanced r.next_ledger r.should_wait)))
        kf
        (λ r.
          if-Keeps (OfWorld Q) r.hit_stop_ledger _ _ (λ _ st p. p)
            (λ _.
              bind-Keeps (OfWorld Q) (maybe_checkpoint o current)
                (λ _. pure (advanced r.next_ledger r.should_wait))
                (maybe_checkpoint-Keeps (OfWorld Q) o current k.handlers) (λ _ st p. p)))

  behind-Keeps :
      (n : ℕ)
      → Keeps (OfWorld Q) (
          attempt next o n s.get_health
            (λ h. if ltb n (h.latest_ledger - 1) then pure (next n) else wait_and_next s n))
  behind-Keeps n = attempt-Keeps (OfWorld Q) next o n s.get_health _ k.handlers k.health (λ h.
      if-Keeps (OfWorld Q) (ltb n (h.latest_ledger - 1)) _ _ (λ _ st p. p)
        (λ _. wait_and_next-Keeps n))

  after_auto-Keeps : (r : Ingested) → Keeps (OfWorld Q) (after_auto s o r)
  after_auto-Keeps hit_stop st p = p
  after_auto-Keeps (advanced n should_wait) st p =
      if-Keeps (OfWorld Q) (passed o.stop_ledger n) _ _ (λ _ st p. p)
        (λ _.
          if-Keeps (OfWorld Q) (not should_wait) _ _ (λ _ st p. p)
            (λ _.
              if-Keeps (OfWorld Q) s.skip_ledger_wait_if_behind _ _ (λ _. behind-Keeps n)
                (λ _. wait_and_next-Keeps n)))
        st p

  live_round-Keeps :
      (current : ℕ) (live : Option (ℕ → Option ℕ → Effect W LiveIngestionResult))
      → s.ingest_live ≡ live
      → passed o.stop_ledger current ≡ false
      → Keeps (OfWorld Q) (live_round_with s o current live)
  live_round-Keeps current none e h st p = p
  live_round-Keeps current (some f) e h st p =
      attempt-Keeps (OfWorld Q) next o current (ingest_round f o current) (after_auto s o)
        k.handlers (ingest_round-Keeps f current (k.live f e current h)) after_auto-Keeps st p

  archive_round-Keeps :
      (current oldest : ℕ) (archive : Option (ℕ → ℕ → Options W → Effect W ℕ))
      → s.ingest_archive ≡ archive
      → passed o.stop_ledger current ≡ false
      → current < oldest
      → Keeps (OfWorld Q) (archive_round_with o current oldest archive)
  archive_round-Keeps current oldest none e h lt st p = p
  archive_round-Keeps current oldest (some f) e h lt st p =
      let (lo, hi) = archive_target_within o.stop_ledger current oldest h lt in
      attempt-Keeps (OfWorld Q) next o current (f current (archive_target o.stop_ledger oldest) o)
        (λ n. pure (next n)) k.handlers
        (k.archive f e current (archive_target o.stop_ledger oldest) lo hi) (λ n st p. p) st p

  choose_round-Keeps :
      (current : ℕ) (health : Health)
      → passed o.stop_ledger current ≡ false
      → Keeps (OfWorld Q) (choose_round s o current health)
  choose_round-Keeps current health h =
      bind-Keeps (OfWorld Q)
        (require (leb current health.latest_ledger) StreamerError.ledger_too_high)
        (λ _.
          if ltb current (health.oldest_ledger + 2)
          then (require s.has_archive_rpc StreamerError.ledger_too_old >>= λ _.
              archive_round_with o current (health.oldest_ledger + 2) s.ingest_archive)
          else live_round_with s o current s.ingest_live)
        (require-Keeps (OfWorld Q) _ _)
        (λ _.
          if-Keeps (OfWorld Q) (ltb current (health.oldest_ledger + 2)) _ _
            (λ old.
              bind-Keeps (OfWorld Q) (require s.has_archive_rpc StreamerError.ledger_too_old)
                (λ _. archive_round_with o current (health.oldest_ledger + 2) s.ingest_archive)
                (require-Keeps (OfWorld Q) _ _)
                (λ _.
                  archive_round-Keeps current (health.oldest_ledger + 2) s.ingest_archive refl h
                    (ltb→lt _ _ old)))
            (λ _. live_round-Keeps current s.ingest_live refl h))

  auto_round-Keeps : (current : ℕ) → Keeps (OfWorld Q) (auto_round s o current)
  unfolding auto_round
  auto_round-Keeps current =
      if-Keeps (OfWorld Q) (passed o.stop_ledger current) stop_and_break
        (s.get_health >>= choose_round s o current) (λ _ st p. p)
        (λ h.
          bind-Keeps (OfWorld Q) s.get_health (choose_round s o current) k.health
            (λ health. choose_round-Keeps current health h))

  auto_body-Keeps : (fuel : ℕ) → Keeps (OfWorld Q) (auto_body fuel s o)
  unfolding auto_body
  auto_body-Keeps fuel =
      bind-Keeps (OfWorld Q) s.get_health
        (λ health. require health.healthy StreamerError.rpc_not_healthy >>= λ _.
          while_running fuel (auto_round s o) (or_latest o.start_ledger health.latest_ledger))
        k.health
        (λ health.
          bind-Keeps (OfWorld Q) (require health.healthy StreamerError.rpc_not_healthy)
            (λ _.
              while_running fuel (auto_round s o) (or_latest o.start_ledger health.latest_ledger))
            (require-Keeps (OfWorld Q) _ _)
            (λ _. while_running-Keeps (OfWorld Q) fuel (auto_round s o) auto_round-Keeps _))

  -- A property of the world that the server and the handlers keep, that the live ingestor keeps for
  -- each ledger that does not pass the stop ledger, and that the archive ingestor keeps for each
  -- range that is not empty and does not pass it, is kept by `start`, however it ends: `start` asks
  -- for no ledger past the stop ledger.
  pub start-within : (fuel : ℕ) → Keeps (OfWorld Q) (start fuel s o)
  unfolding start
  start-within fuel st p =
      if-Keeps (OfWorld Q) st.is_running (throws (Thrown.streamer StreamerError.already_running))
        (set_running true >>= λ _. finally_stop (auto_body fuel s o)) (λ _ st p. p)
        (λ _.
          bind-Keeps (OfWorld Q) (set_running true) (λ _. finally_stop (auto_body fuel s o))
            (λ st p. p) (λ _ st p. auto_body-Keeps fuel st p))
        st p
