-- ===== src/Replay/Ports.antt =====
-- packages/replay/src/stateweaver/replay/ports.py: the environment and the oracles, which are parameters.
use stateweaver.Common.{ℕ, Bool, List}
use stateweaver.Contracts.Actions.{ActionEnvelope}
use stateweaver.Replay.Captures.{StateCapture}
use stateweaver.Replay.Models.{RootSeed, ReplayObservation, OracleResult}

-- How an awaited call ends: `raised` names the type of an exception other than `TimeoutError`.
pub data Answer {ℓ} (A : Type ℓ) : Type ℓ where
  returned : A → Answer A
  timed_out cancelled : Answer A
  raised : ℕ → Answer A

-- `ReplayEnvironment` and the registered `ReplayOracle`s over a state `E` of the world outside. A timeout may arrive at
-- any call, and so may a cancellation. The last two fields are names of types of exceptions.
pub record Ports (E : Type 0) : Type 0 where
  pub reset_root : RootSeed → E → Answer StateCapture × E
  pub capture_state : E → Answer StateCapture × E
  pub execute_action : ActionEnvelope → E → Answer (List ReplayObservation) × E
  pub clean_up : E → Answer (Unit {0}) × E
  pub is_registered : ℕ → Bool
  pub evaluate_oracle :
      ℕ
      → StateCapture
      → ActionEnvelope
      → StateCapture
      → List ReplayObservation
      → E
      → Answer OracleResult × E
  pub lookup_error : ℕ
  pub timeout_error : ℕ
