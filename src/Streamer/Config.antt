-- ===== src/Streamer/Config.antt =====
-- The constructor of `RPCStreamer` and its setters, in rpc-streamer/src/streamer.ts. A server is known
-- by a number, and a URL that is given is one that makes a server.
use colibri.Common.{
  ℕ, Bool, false, Option, none, some, Result, ok, err, if◌then◌else◌, ltb, ◌≤◌, ◌≡◌, ◌↔◌, arith,
}
use colibri.Streamer.Effect.{StreamerError}

pub record StreamerOptions : Type 0 where
  pub limit : Option ℕ
  pub wait_ledger_interval_ms : Option ℕ
  pub paging_interval_ms : Option ℕ
  pub archival_interval_ms : Option ℕ
  pub skip_ledger_wait_if_behind : Option Bool

pub record Settings : Type 0 where
  pub limit : ℕ
  pub wait_ledger_interval_ms : ℕ
  pub paging_interval_ms : ℕ
  pub archival_interval_ms : ℕ
  pub skip_ledger_wait_if_behind : Bool

abbrev pub or_else : {A : Type 0} → Option A → A → A
or_else none a = a
or_else (some b) a = b

abbrev with_options : Option StreamerOptions → Settings
with_options none = record {
  limit = 10;
  wait_ledger_interval_ms = 5000;
  paging_interval_ms = 100;
  archival_interval_ms = 500;
  skip_ledger_wait_if_behind = false;
}
with_options (some o) = record {
  limit = or_else o.limit 10;
  wait_ledger_interval_ms = or_else o.wait_ledger_interval_ms 5000;
  paging_interval_ms = or_else o.paging_interval_ms 100;
  archival_interval_ms = or_else o.archival_interval_ms 500;
  skip_ledger_wait_if_behind = or_else o.skip_ledger_wait_if_behind false;
}

-- The fields that the constructor sets from the options, or its error.
unfoldable pub new_streamer : Option StreamerOptions → Result StreamerError Settings
new_streamer options =
    let s = with_options options in
    if ltb s.wait_ledger_interval_ms s.paging_interval_ms
    then err StreamerError.invalid_config
    else ok s

-- The constructor takes options exactly when the interval between pages, or its default, is at most
-- the one between ledgers, or its default.
pub new_streamer-succeeds_iff :
    (o : StreamerOptions)
    → ((s : Settings) × (new_streamer (some o) ≡ ok s))
      ↔ (or_else o.paging_interval_ms 100 ≤ or_else o.wait_ledger_interval_ms 5000)
unfolding new_streamer
new_streamer-succeeds_iff o = (λ (s, h). ground arith, λ h. (with_options (some o), ground arith))
