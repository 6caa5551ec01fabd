-- ===== src/Streamer/Delivery/Handover.antt =====
-- `start` of rpc-streamer/src/streamer.ts on ledgers that begin in the archive and end in the live server.
use colibri.Common.{
  ℕ, zero, suc, ◌+◌, ◌-◌, ◌≤◌, ◌<◌, Bool, true, false, not, some, ok, ◌≡◌, refl, ◌∙◌, ap, sym, ltb,
  ◌==◌, arith, if◌then◌else◌, le→leb, lt→ltb,
}
use colibri.Streamer.Effect.{
  State, Effect, StreamerError, require, pure, continue_with, ◌>>=◌, Options, attempt, next, break,
  while_running,
}
use colibri.Streamer.Modes.{
  Health, RpcStreamer, or_latest, passed, advanced, archive_target, ingest_round, after_auto,
  wait_and_next, live_round_with, archive_round_with, choose_round, auto_round, auto_body, start,
}
use colibri.Streamer.Ledgers.{
  LedgerEntry, LedgerSource, ingest_live_ledger, ingest_archive_ledgers, create_ledger_streamer,
}
use colibri.Streamer.Delivery.{
  entries-append, deliver_all-append, entries, deliver_all, at, not_below, Serving,
  ingest_archive_ledgers-exact,
}

-- A healthy server whose health does not change, and a wait that changes nothing.
pub record Steady {W : Type 0} (latest oldest : ℕ) (get_health : Effect W Health)
    (wait : State W → State W) : Type 0 where
  pub health :
      (w : W)
      → get_health (at w true) ≡ (
        at w true,
        ok (record { healthy = true; latest_ledger = latest; oldest_ledger = oldest }),
      )
  pub waits : (w : W) → wait (at w true) ≡ at w true

module _ {W : Type 0} (entry : ℕ → LedgerEntry) (deliver : W → LedgerEntry → W)
    (latest oldest stop_ledger : ℕ) (live archive : LedgerSource W) (o : Options W)
    (get_health : Effect W Health) (wait : State W → State W) (skip : Bool) (ingest_fuel : ℕ)
    (from_live : Serving entry deliver latest live o)
    (from_archive : Serving entry deliver latest archive o)
    (steady : Steady latest oldest get_health wait) (stops : o.stop_ledger ≡ some stop_ledger)
    (reached : stop_ledger ≤ latest) where
  abbrev streamer : RpcStreamer W
  streamer = create_ledger_streamer ingest_fuel live archive get_health true skip wait

  not_passed : (n : ℕ) → n ≤ stop_ledger → passed o.stop_ledger n ≡ false
  not_passed n le = ap (λ stop. passed stop n) stops ∙ not_below stop_ledger n le

  has_passed : (n : ℕ) → stop_ledger < n → passed o.stop_ledger n ≡ true
  has_passed n lt = ap (λ stop. passed stop n) stops ∙ lt→ltb stop_ledger n lt

  ingest_round-eq :
      (n : ℕ) (w : W)
      → n ≤ stop_ledger
      → ingest_round (ingest_live_ledger live) o n (at w true)
        ≡ (at (deliver w (entry n)) true, ok (advanced (n + 1) (latest == n)))
  unfolding ingest_round ingest_live_ledger
  ingest_round-eq n w le =
      let short : passed o.stop_ledger (entry n).sequence ≡ false =
        ap (passed o.stop_ledger) (from_live.numbered n) ∙ not_passed n le in
      rw
        (
          from_live.fetches n w,
          short,
          from_live.delivers (entry n) w,
          from_live.checkpoints n (deliver w (entry n)),
        )
        (ap (λ k. (at (deliver w (entry n)) true, ok (advanced (k + 1) (latest == n))))
          (from_live.numbered n))

  after_auto-last :
      (n : ℕ) (should_wait : Bool) (w : W)
      → stop_ledger < n
      → after_auto streamer o (advanced n should_wait) (at w true) ≡ (at w false, ok break)
  unfolding create_ledger_streamer
  after_auto-last n should_wait w lt = rw (has_passed n lt) refl

  wait-eq :
      (c : Bool) (n : ℕ) (w : W)
      → (if c then pure (next n) else wait_and_next streamer n) (at w true)
        ≡ (at w true, ok (next n))
  unfolding create_ledger_streamer
  wait-eq true n w = refl
  wait-eq false n w = rw (steady.waits w) refl

  settle-eq :
      (should_wait skips : Bool) (n : ℕ) (w : W)
      → (if not should_wait
            then pure (next n)
            else if skips
            then attempt next o n get_health (λ h.
              if ltb n (h.latest_ledger - 1) then pure (next n) else wait_and_next streamer n)
            else wait_and_next streamer n)
          (at w true)
        ≡ (at w true, ok (next n))
  unfolding attempt
  settle-eq false skips n w = refl
  settle-eq true false n w = wait-eq false n w
  settle-eq true true n w = rw (steady.health w) (wait-eq (ltb n (latest - 1)) n w)

  after_auto-on :
      (n : ℕ) (should_wait : Bool) (w : W)
      → n ≤ stop_ledger
      → after_auto streamer o (advanced n should_wait) (at w true) ≡ (at w true, ok (next n))
  unfolding create_ledger_streamer
  after_auto-on n should_wait w le = rw (not_passed n le) (settle-eq should_wait skip n w)

  ingested-eq :
      (n : ℕ) (w : W)
      → n ≤ stop_ledger
      → live_round_with streamer o n (some (ingest_live_ledger live)) (at w true)
        ≡ after_auto streamer o (advanced (n + 1) (latest == n)) (at (deliver w (entry n)) true)
  unfolding attempt
  ingested-eq n w le = rw (ingest_round-eq n w le) refl

  -- A round of `start` at a ledger that the live server has: ingestion, then what follows it.
  live_round-eq :
      (n : ℕ) (w : W)
      → oldest + 2 ≤ n
      → n ≤ stop_ledger
      → auto_round streamer o n (at w true)
        ≡ after_auto streamer o (advanced (n + 1) (latest == n)) (at (deliver w (entry n)) true)
  unfolding auto_round attempt create_ledger_streamer
  live_round-eq n w lo le = rw (not_passed n le) (
      ap (continue_with (choose_round streamer o n)) (steady.health w)
      ∙ rw (le→leb n latest (omega arith), not_below n (oldest + 2) lo) (ingested-eq n w le))

  -- The live part of a run.
  live_rounds-exact :
      (d fuel n : ℕ) (w : W)
      → n + d ≡ stop_ledger
      → oldest + 2 ≤ n
      → d < fuel
      → while_running fuel (auto_round streamer o) n (at w true)
        ≡ (at (deliver_all deliver w (entries entry n (suc d))) false, ok tt)
  unfolding while_running entries deliver_all
  live_rounds-exact d zero n w e lo lt = absurd (omega arith)
  live_rounds-exact zero (suc fuel) n w e lo lt =
      rw
        (
          live_round-eq n w lo (omega arith),
          after_auto-last (n + 1) (latest == n) (deliver w (entry n)) (omega arith),
        )
        refl
  live_rounds-exact (suc d) (suc fuel) n w e lo lt =
      rw
        (
          live_round-eq n w lo (omega arith),
          after_auto-on (n + 1) (latest == n) (deliver w (entry n)) (omega arith),
        )
        (live_rounds-exact d fuel (n + 1) (deliver w (entry n)) (omega arith) (omega arith)
          (omega arith))

  archived-eq :
      (m a target : ℕ) (w : W)
      → a + m ≡ target + 1
      → m < ingest_fuel
      → archive_target o.stop_ledger (oldest + 2) ≡ target
      → archive_round_with o a
          (oldest + 2)
          (some (ingest_archive_ledgers ingest_fuel archive))
          (at w true)
        ≡ (at (deliver_all deliver w (entries entry a m)) true, ok (next (target + 1)))
  unfolding attempt
  archived-eq m a target w e lt aim =
      rw
        (
          aim,
          ingest_archive_ledgers-exact entry deliver latest archive o from_archive m ingest_fuel a
              target w e lt,
        )
        refl

  -- A round of `start` at a ledger that only the archive has.
  archive_round-eq :
      (m a : ℕ) (w : W)
      → a + m ≡ oldest + 2
      → 1 ≤ m
      → oldest + 2 ≤ stop_ledger
      → m < ingest_fuel
      → auto_round streamer o a (at w true)
        ≡ (at (deliver_all deliver w (entries entry a m)) true, ok (next (oldest + 2)))
  unfolding auto_round create_ledger_streamer
  archive_round-eq m a w e lo le lt =
      let aim : archive_target o.stop_ledger (oldest + 2) ≡ oldest + 1 =
        ap (λ stop. archive_target stop (oldest + 2)) stops ∙ omega arith in
      let end : oldest + 1 + 1 ≡ oldest + 2 = omega arith in
      rw (not_passed a (omega arith)) (
        ap (continue_with (choose_round streamer o a)) (steady.health w)
        ∙ rw (le→leb a latest (omega arith), lt→ltb a (oldest + 2) (omega arith))
            (archived-eq m a (oldest + 1) w (omega arith) lt aim
              ∙ ap (λ k. (at (deliver_all deliver w (entries entry a m)) true, ok (next k))) end))

  rounds-exact :
      (m d fuel a : ℕ) (w : W)
      → a + m ≡ oldest + 2
      → 1 ≤ m
      → oldest + 2 + d ≡ stop_ledger
      → m < ingest_fuel
      → d + 1 < fuel
      → while_running fuel (auto_round streamer o) a (at w true)
        ≡ (at (deliver_all deliver w (entries entry a (m + suc d))) false, ok tt)
  unfolding while_running
  rounds-exact m d zero a w e lo reach lt enough = absurd (omega arith)
  rounds-exact m d (suc fuel) a w e lo reach lt enough =
      let joined : deliver_all deliver (deliver_all deliver w (entries entry a m))
            (entries entry (oldest + 2) (suc d))
          ≡ deliver_all deliver w (entries entry a (m + suc d)) =
        sym (
          ap (deliver_all deliver w) (entries-append entry a m (suc d))
          ∙ deliver_all-append deliver w (entries entry a m) (entries entry (a + m) (suc d))
          ∙ ap
              (λ k.
                deliver_all deliver (deliver_all deliver w (entries entry a m))
                  (entries entry k (suc d)))
              e) in
      rw (archive_round-eq m a w e lo (omega arith) lt) (
        live_rounds-exact d fuel (oldest + 2) _ reach (omega arith) (omega arith)
        ∙ ap (λ w'. (at w' false, ok tt)) joined)

  auto_body-exact :
      (m d fuel a : ℕ) (w : W)
      → o.start_ledger ≡ some a
      → a + m ≡ oldest + 2
      → 1 ≤ m
      → oldest + 2 + d ≡ stop_ledger
      → m < ingest_fuel
      → d + 1 < fuel
      → auto_body fuel streamer o (at w true)
        ≡ (at (deliver_all deliver w (entries entry a (m + suc d))) false, ok tt)
  unfolding auto_body create_ledger_streamer
  auto_body-exact m d fuel a w begin e lo reach lt enough =
      ap
        (continue_with (λ health. require health.healthy StreamerError.rpc_not_healthy >>= λ _.
          while_running fuel (auto_round streamer o)
            (or_latest o.start_ledger health.latest_ledger)))
        (steady.health w)
      ∙ ap (λ l. while_running fuel (auto_round streamer o) (or_latest l latest) (at w true)) begin
      ∙ rounds-exact m d fuel a w e lo reach lt enough

  -- `start` from a ledger that only the archive has, to a stop ledger that the live server has: the
  -- handler is given exactly the ledgers from the start to the stop ledger, each once and in order,
  -- across the change from the archive to the live server, and `start` returns without an error.
  -- The servers have every ledger and their health stays the same, the handler neither throws nor
  -- stops the streamer, and waits and checkpoints change nothing. Fuel for a round per ledger and one
  -- more is enough.
  pub start-exact :
      (m d fuel a : ℕ) (w : W)
      → o.start_ledger ≡ some a
      → a + m ≡ oldest + 2
      → 1 ≤ m
      → oldest + 2 + d ≡ stop_ledger
      → m < ingest_fuel
      → d + 1 < fuel
      → start fuel streamer o (at w false)
        ≡ (at (deliver_all deliver w (entries entry a (m + suc d))) false, ok tt)
  unfolding start
  start-exact m d fuel a w begin e lo reach lt enough =
      rw (auto_body-exact m d fuel a w begin e lo reach lt enough) refl
