-- ===== src/Streamer/Safety.antt =====
-- What the calls of rpc-streamer/src/streamer.ts keep of the state, as rules for the model's effects.
pub mod Range
pub mod Stopped
pub mod Skipped
use colibri.Common.{
  ℕ, ◌+◌, zero, suc, Bool, true, false, ◌&&◌, not, Option, none, some, Result, ok, err, ◌≡◌, refl,
  if◌then◌else◌, leb,
}
use colibri.Streamer.Effect.{
  StreamerError, Thrown, streamer, external, out_of_fuel, State, Effect, pure, throws,
  continue_with, ◌>>=◌, ◌>>◌, require, Options, maybe_checkpoint, handle_error, recover,
  attempt_with, attempt, if_going, checkpoint_due, call_checkpoint, call_error_handler, continues,
  interval_or_default, Round, next, break, IngestRound, go_on, returns, loop_on, while_running,
  ingest_on, while_within,
}

-- Wherever `P` holds before a call it holds after it, whatever the call returns or throws.
abbrev pub Keeps : {W A : Type 0} → (State W → Type 0) → Effect W A → Type 0
Keeps {W} P m = (st : State W) → P st → P ((m st).0)

-- The handlers of the options keep `P`.
pub record HandlersKeep {W : Type 0} (P : State W → Type 0) (o : Options W) : Type 0 where
  pub checkpoints :
      (h : ℕ → Effect W (Unit {0})) → o.on_checkpoint ≡ some h → (n : ℕ) → Keeps P (h n)
  pub errors :
      (h : Thrown → ℕ → Effect W (Option Bool))
      → o.on_error ≡ some h
      → (e : Thrown) (n : ℕ) → Keeps P (h e n)

module _ {W : Type 0} (P : State W → Type 0) where
  pub continue-Keeps :
      {A B : Type 0} (r : State W × Result Thrown A) (f : A → Effect W B)
      → P (r.0)
      → ((a : A) → Keeps P (f a))
      → P ((continue_with f r).0)
  continue-Keeps (st, ok a) f p k = k a st p
  continue-Keeps (st, err e) f p k = p

  pub bind-Keeps :
      {A B : Type 0} (m : Effect W A) (f : A → Effect W B)
      → Keeps P m
      → ((a : A) → Keeps P (f a))
      → Keeps P (m >>= f)
  bind-Keeps m f km kf st p = continue-Keeps (m st) f (km st p) kf

  pub if-Keeps :
      {A : Type 0} (b : Bool) (m n : Effect W A)
      → (b ≡ true → Keeps P m)
      → (b ≡ false → Keeps P n)
      → Keeps P (if b then m else n)
  if-Keeps true m n km kn = km refl
  if-Keeps false m n km kn = kn refl

  pub require-Keeps : (b : Bool) (e : StreamerError) → Keeps P (require {W = W} b e)
  require-Keeps true e st p = p
  require-Keeps false e st p = p

  checkpoint-Keeps :
      (handler : Option (ℕ → Effect W (Unit {0}))) (sequence interval : ℕ)
      → ((h : ℕ → Effect W (Unit {0})) → handler ≡ some h → (n : ℕ) → Keeps P (h n))
      → Keeps P (call_checkpoint handler sequence interval)
  checkpoint-Keeps none sequence interval k st p = p
  checkpoint-Keeps (some h) sequence interval k st p =
      if-Keeps (checkpoint_due sequence interval) (h sequence) (pure tt) (λ _. k h refl sequence)
        (λ _ st p. p) st p

  pub maybe_checkpoint-Keeps :
      (o : Options W) (sequence : ℕ) → HandlersKeep P o → Keeps P (maybe_checkpoint o sequence)
  unfolding maybe_checkpoint
  maybe_checkpoint-Keeps o sequence h =
      checkpoint-Keeps o.on_checkpoint sequence (interval_or_default o.checkpoint_interval)
        h.checkpoints

  error_handler-Keeps :
      (handler : Option (Thrown → ℕ → Effect W (Option Bool))) (e : Thrown) (sequence : ℕ)
      → ((h : Thrown → ℕ → Effect W (Option Bool))
          → handler ≡ some h
          → (e : Thrown) (n : ℕ) → Keeps P (h e n))
      → Keeps P (call_error_handler handler e sequence)
  error_handler-Keeps none e sequence k st p = p
  error_handler-Keeps (some h) e sequence k st p =
      bind-Keeps (h e sequence) (λ result. pure (continues result)) (k h refl e sequence)
        (λ _ st p. p) st p

  recover-Keeps :
      {B : Type 0} (skip : ℕ → B) (o : Options W) (ledger : ℕ) (e : Thrown)
      → HandlersKeep P o
      → Keeps P (recover skip o ledger e)
  unfolding recover handle_error
  recover-Keeps skip o ledger e h =
      bind-Keeps (call_error_handler o.on_error e ledger)
        (λ handled. if handled then pure (skip (ledger + 1)) else throws e)
        (error_handler-Keeps o.on_error e ledger h.errors)
        (λ handled.
          if-Keeps handled (pure (skip (ledger + 1))) (throws e) (λ _ st p. p) (λ _ st p. p))

  attempt_with-Keeps :
      {A B : Type 0} (skip : ℕ → B) (o : Options W) (ledger : ℕ) (k : A → Effect W B)
      (r : State W × Result Thrown A)
      → HandlersKeep P o
      → P (r.0)
      → ((a : A) → Keeps P (k a))
      → P ((attempt_with skip o ledger k r).0)
  attempt_with-Keeps skip o ledger k (st, ok a) h p kk = kk a st p
  attempt_with-Keeps skip o ledger k (st, err out_of_fuel) h p kk = p
  attempt_with-Keeps skip o ledger k (st, err (streamer e)) h p kk =
      recover-Keeps skip o ledger _ h st p
  attempt_with-Keeps skip o ledger k (st, err (external e)) h p kk =
      recover-Keeps skip o ledger _ h st p
  attempt_with-Keeps skip o ledger k (st, err (Thrown.parsing e)) h p kk =
      recover-Keeps skip o ledger _ h st p
  attempt_with-Keeps skip o ledger k (st, err (Thrown.event e)) h p kk =
      recover-Keeps skip o ledger _ h st p

  pub attempt-Keeps :
      {A B : Type 0} (skip : ℕ → B) (o : Options W) (ledger : ℕ) (m : Effect W A)
      (k : A → Effect W B)
      → HandlersKeep P o
      → Keeps P m
      → ((a : A) → Keeps P (k a))
      → Keeps P (attempt skip o ledger m k)
  unfolding attempt
  attempt-Keeps skip o ledger m k h km kk st p =
      attempt_with-Keeps skip o ledger k (m st) h (km st p) kk

  going-Keeps :
      {A : Type 0} (going : Bool) (a : A) (round : Effect W A)
      → Keeps P round
      → Keeps P (if_going going a round)
  going-Keeps false a round k st p = p
  going-Keeps true a round k st p = k st p

  loop_on-Keeps :
      (again : ℕ → Effect W (Unit {0})) (r : State W × Result Thrown Round)
      → P (r.0)
      → ((n : ℕ) → Keeps P (again n))
      → P ((loop_on again r).0)
  loop_on-Keeps again (st, ok (next n)) p k = k n st p
  loop_on-Keeps again (st, ok break) p k = p
  loop_on-Keeps again (st, err e) p k = p

  pub while_running-Keeps :
      (fuel : ℕ) (body : ℕ → Effect W Round)
      → ((n : ℕ) → Keeps P (body n))
      → (n : ℕ) → Keeps P (while_running fuel body n)
  unfolding while_running
  while_running-Keeps zero body k n st p = p
  while_running-Keeps (suc fuel) body k n st p =
      going-Keeps st.is_running tt _
        (λ st p.
          loop_on-Keeps (while_running fuel body) (body n st) (k n st p)
            (while_running-Keeps fuel body k))
        st p
