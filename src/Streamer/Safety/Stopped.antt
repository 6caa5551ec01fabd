-- ===== src/Streamer/Safety/Stopped.antt =====
-- The running flag of rpc-streamer/src/streamer.ts after a start.
use colibri.Common.{ℕ, Bool, true, false, Option, none, some, err, ◌≡◌, refl, leb, if◌then◌else◌}
use colibri.Streamer.Effect.{
  StreamerError, streamer, State, Effect, throws, ◌>>=◌, ◌>>◌, stop, require, set_running,
  finally_stop, Options,
}
use colibri.Streamer.Modes.{
  LiveIngestionResult, RpcStreamer, live_with, start_live, archive_with, start_archive, auto_body,
  start,
}

module _ {W : Type 0} (s : RpcStreamer W) (o : Options W) (st : State W) where
  live_with-stops :
      (fuel : ℕ) (ingest : Option (ℕ → Option ℕ → Effect W LiveIngestionResult))
      → st.is_running ≡ false
      → ((live_with fuel s o ingest st).0).is_running ≡ false
  live_with-stops fuel none h = h
  live_with-stops fuel (some f) h = refl

  checked-stops :
      (has_rpc in_order : Bool) (e e' : StreamerError) (m : Effect W (Unit {0}))
      → st.is_running ≡ false
      → (((require has_rpc e >> (require in_order e' >> (set_running true >> finally_stop m))) st).0
        ).is_running
        ≡ false
  checked-stops true true e e' m h = refl
  checked-stops true false e e' m h = h
  checked-stops false b e e' m h = h

  guard-stops :
      (running : Bool) (m : Effect W (Unit {0}))
      → st.is_running ≡ false
      → ((m st).0).is_running ≡ false
      → (((if running then throws (streamer StreamerError.already_running) else m) st).0).is_running
        ≡ false
  guard-stops true m h k = h
  guard-stops false m h k = k

  archive_with-stops :
      (a b : ℕ) (ingest : Option (ℕ → ℕ → Options W → Effect W ℕ))
      → st.is_running ≡ false
      → ((archive_with s o a b ingest st).0).is_running ≡ false
  archive_with-stops a b none h = h
  archive_with-stops a b (some f) h =
      checked-stops s.has_archive_rpc (leb a b) _ _ (f a b o >>= λ _. stop) h

  -- A call of `startLive`, `startArchive` or `start` while the streamer runs throws ALREADY_RUNNING
  -- and changes nothing.
  pub start-already_running :
      (fuel start_ledger stop_ledger : ℕ)
      → st.is_running ≡ true
      → (start_live fuel s o st ≡ (st, err (streamer StreamerError.already_running)))
        × (start_archive s o start_ledger stop_ledger st
            ≡ (st, err (streamer StreamerError.already_running)))
        × (start fuel s o st ≡ (st, err (streamer StreamerError.already_running)))
  unfolding start_live start_archive start
  start-already_running fuel a b h = (rw h refl, rw h refl, rw h refl)

  -- A call while the streamer does not run leaves it not running, whatever the servers and the
  -- handlers do, and also where the call throws.
  pub start-stops :
      (fuel start_ledger stop_ledger : ℕ)
      → st.is_running ≡ false
      → (((start_live fuel s o st).0).is_running ≡ false)
        × (((start_archive s o start_ledger stop_ledger st).0).is_running ≡ false)
        × (((start fuel s o st).0).is_running ≡ false)
  unfolding start_live start_archive start
  start-stops fuel a b h = (
    guard-stops st.is_running _ h (live_with-stops fuel s.ingest_live h),
    guard-stops st.is_running _ h (archive_with-stops a b s.ingest_archive h),
    guard-stops st.is_running (set_running true >> finally_stop (auto_body fuel s o)) h refl,
  )
