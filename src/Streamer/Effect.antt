-- ===== src/Streamer/Effect.antt =====
-- What the streamer of rpc-streamer/src/streamer.ts awaits. A call of the RPC server or of a handler
-- changes the world, may set the running flag (a handler may call `stop()`), and may throw.
use colibri.Common.{
  ℕ, zero, suc, ◌+◌, ◌%◌, Bool, true, false, Option, none, some, Result, ok, err, if◌then◌else◌,
  ◌==◌, leb, ◌&&◌,
}
use colibri.Events.Event.{EventError}
use colibri.Events.Parsing.{ParsingError}

-- The codes of rpc-streamer/src/errors.ts that the streamer throws.
pub data StreamerError : Type 0 where
  already_running missing_live_ingestor missing_archive_ingestor missing_archive_rpc : StreamerError
  rpc_not_healthy ledger_too_old ledger_too_high invalid_sequence_range invalid_config :
      StreamerError

-- What a `catch` sees: an error of the streamer, one of a server or a handler, known by a number, or
-- one of the events of a ledger.
-- `out_of_fuel` is no error of the code: it ends a loop of the model, and nothing catches it.
pub data Thrown : Type 0 where
  streamer : StreamerError → Thrown
  external : ℕ → Thrown
  parsing : ParsingError → Thrown
  event : EventError → Thrown
  out_of_fuel : Thrown

-- `is_running` is the field `_isRunning`.
pub record State (W : Type 0) : Type 0 where
  pub world : W
  pub is_running : Bool

abbrev pub Effect : Type 0 → Type 0 → Type 0
Effect W A = State W → State W × Result Thrown A

module _ {W : Type 0} where
  abbrev pub pure : {A : Type 0} → A → Effect W A
  pure a st = (st, ok a)

  abbrev pub throws : {A : Type 0} → Thrown → Effect W A
  throws e st = (st, err e)

  abbrev pub continue_with :
      {A B : Type 0} → (A → Effect W B) → State W × Result Thrown A → State W × Result Thrown B
  continue_with f (st, ok a) = f a st
  continue_with f (st, err e) = (st, err e)

  infixl 5 ◌>>=◌ ◌>>◌
  abbrev pub ◌>>=◌ : {A B : Type 0} → Effect W A → (A → Effect W B) → Effect W B
  ◌>>=◌ m f st = continue_with f (m st)

  abbrev pub ◌>>◌ : {B : Type 0} → Effect W (Unit {0}) → Effect W B → Effect W B
  m >> k = m >>= λ _. k

  -- `if (!test) throw e`
  abbrev pub require : Bool → StreamerError → Effect W (Unit {0})
  require test e = if test then pure tt else throws (streamer e)

  abbrev pub set_running : Bool → Effect W (Unit {0})
  set_running b st = (record st { is_running = b }, ok tt)

  abbrev pub stop : Effect W (Unit {0})
  stop = set_running false

  -- `try { m } finally { this._isRunning = false; }`
  abbrev pub finally_stop : {A : Type 0} → Effect W A → Effect W A
  finally_stop m st = let (st', r) = m st in (record st' { is_running = false }, r)

-- The options of a start: handlers, the interval of the checkpoints, and the range.
pub record Options (W : Type 0) : Type 0 where
  pub start_ledger : Option ℕ
  pub stop_ledger : Option ℕ
  pub on_checkpoint : Option (ℕ → Effect W (Unit {0}))
  pub checkpoint_interval : Option ℕ
  pub on_error : Option (Thrown → ℕ → Effect W (Option Bool))

-- `sequence % interval === 0`; the rest by 0 is NaN, which equals nothing.
abbrev pub checkpoint_due : ℕ → ℕ → Bool
checkpoint_due sequence interval = if interval == 0 then false else sequence % interval == 0

abbrev pub interval_or_default : Option ℕ → ℕ
interval_or_default none = 100
interval_or_default (some n) = n

-- `result !== false`, for a handler that may return nothing.
abbrev pub continues : Option Bool → Bool
continues none = true
continues (some b) = b

-- A round of a `while` loop over the current ledger goes on with a ledger or breaks.
pub data Round : Type 0 where
  next : ℕ → Round
  break : Round

-- A round of an archive ingestor goes on with a ledger, or returns one.
pub data IngestRound : Type 0 where
  go_on returns : ℕ → IngestRound

module _ {W : Type 0} where
  -- `maybeCheckpoint`
  abbrev pub call_checkpoint : Option (ℕ → Effect W (Unit {0})) → ℕ → ℕ → Effect W (Unit {0})
  call_checkpoint none sequence interval = pure tt
  call_checkpoint (some handler) sequence interval =
      if checkpoint_due sequence interval then handler sequence else pure tt

  unfoldable pub maybe_checkpoint : Options W → ℕ → Effect W (Unit {0})
  maybe_checkpoint o sequence =
      call_checkpoint o.on_checkpoint sequence (interval_or_default o.checkpoint_interval)

  abbrev pub call_error_handler :
      Option (Thrown → ℕ → Effect W (Option Bool)) → Thrown → ℕ → Effect W Bool
  call_error_handler none e sequence = pure false
  call_error_handler (some handler) e sequence =
      handler e sequence >>= λ result. pure (continues result)

  unfoldable pub handle_error : Options W → Thrown → ℕ → Effect W Bool
  handle_error o e sequence = call_error_handler o.on_error e sequence

  -- `catch (error) { if (!this.handleError(error, ledger, …)) throw error; ledger++; }`, and `skip`
  -- makes of the next ledger how the loop goes on.
  unfoldable pub recover : {B : Type 0} → (ℕ → B) → Options W → ℕ → Thrown → Effect W B
  recover skip o ledger e = do
    handled ← handle_error o e ledger
    if handled then pure (skip (ledger + 1)) else throws e

  abbrev pub attempt_with :
      {A B : Type 0}
      → (ℕ → B)
      → Options W
      → ℕ
      → (A → Effect W B)
      → State W × Result Thrown A
      → State W × Result Thrown B
  attempt_with skip o ledger k (st, ok a) = k a st
  attempt_with skip o ledger k (st, err out_of_fuel) = (st, err out_of_fuel)
  attempt_with skip o ledger k (st, err (streamer e)) = recover skip o ledger (streamer e) st
  attempt_with skip o ledger k (st, err (external e)) = recover skip o ledger (external e) st
  attempt_with skip o ledger k (st, err (parsing e)) = recover skip o ledger (parsing e) st
  attempt_with skip o ledger k (st, err (event e)) = recover skip o ledger (event e) st

  -- `try { m } catch …` with that handler; `k` is what follows where `m` did not throw.
  unfoldable pub attempt :
      {A B : Type 0} → (ℕ → B) → Options W → ℕ → Effect W A → (A → Effect W B) → Effect W B
  unfolding recover handle_error
  attempt skip o ledger m k st = attempt_with skip o ledger k (m st)

  abbrev pub loop_on :
      (ℕ → Effect W (Unit {0})) → State W × Result Thrown Round → State W × Result Thrown (Unit {0})
  loop_on again (st, ok (next n)) = again n st
  loop_on again (st, ok break) = (st, ok tt)
  loop_on again (st, err e) = (st, err e)

  -- The test of a loop: it ends with a value, or goes on.
  abbrev pub if_going : {A : Type 0} → Bool → A → Effect W A → Effect W A
  if_going false a round st = (st, ok a)
  if_going true a round st = round st

  -- `while (this._isRunning) { body }`; a body sees the current ledger.
  unfoldable pub while_running : ℕ → (ℕ → Effect W Round) → ℕ → Effect W (Unit {0})
  while_running zero body current st = (st, err out_of_fuel)
  while_running (suc fuel) body current st =
      if_going st.is_running tt (λ st. loop_on (while_running fuel body) (body current st)) st

  abbrev pub ingest_on :
      (ℕ → Effect W ℕ) → State W × Result Thrown IngestRound → State W × Result Thrown ℕ
  ingest_on again (st, ok (go_on n)) = again n st
  ingest_on again (st, ok (returns n)) = (st, ok n)
  ingest_on again (st, err e) = (st, err e)

  -- `while (context.isRunning() && currentLedger <= stopLedger) { body } return currentLedger;`
  unfoldable pub while_within : ℕ → (ℕ → Effect W IngestRound) → ℕ → ℕ → Effect W ℕ
  while_within zero body stop_ledger current st = (st, err out_of_fuel)
  while_within (suc fuel) body stop_ledger current st =
      if_going (st.is_running && leb current stop_ledger) current
        (λ st. ingest_on (while_within fuel body stop_ledger) (body current st)) st
