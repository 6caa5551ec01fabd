-- ===== src/Processes/Simulate.antt =====
-- core/processes/simulate-transaction/index.ts: which answers of a simulation the process returns.
use colibri.Common.{Bool, ◌&&◌, Option, none, some, Result, ok, err, if◌then◌else◌}

-- What the tests of the SDK find in an answer, and whether a restore answer has a result.
pub record Simulation (Answer : Type 0) : Type 0 where
  pub is_error : Answer → Bool
  pub is_restore : Answer → Bool
  pub is_success : Answer → Bool
  pub has_result : Answer → Bool

pub data SimulateError : Type 0 where
  could_not_simulate_transaction simulation_failed simulation_result_not_verified : SimulateError

module _ {Answer : Type 0} (simulation : Simulation Answer) where
  unfoldable pub verified : Answer → Result SimulateError Answer
  verified a =
      if simulation.is_error a
      then err simulation_failed
      else if simulation.is_restore a && simulation.has_result a
      then ok a
      else if simulation.is_success a
      then ok a
      else err simulation_result_not_verified

  unfoldable pub answered : Option Answer → Result SimulateError Answer
  answered none = err could_not_simulate_transaction
  answered (some a) = verified a

  unfoldable pub simulate_transaction :
      {W Tx : Type 0} → (Tx → W → W × Option Answer) → Tx → W → W × Result SimulateError Answer
  simulate_transaction call tx w = let (w', answer) = call tx w in (w', answered answer)
