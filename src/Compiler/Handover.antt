-- ===== src/Compiler/Handover.antt =====
-- `CompiledChain.to_replay_plan` of packages/compiler/src/stateweaver/compiler/models.py: a chain becomes a plan
-- for the replay.
pub mod Accepted
use stateweaver.Common.{ℕ, suc, ◌+◌, List, [], ◌∷◌, Result, ok, err, ◌>>=◌}
use stateweaver.Contracts.Actions.{ActionEnvelope}
use stateweaver.Compiler.Models.{CompiledChain}
use stateweaver.Replay.Models.{ReplayStep, ReplayPlan, ReplayError, validate_step, validate_plan}

-- The default timeout of a step.
abbrev pub default_timeout : ℕ
default_timeout = 10000

-- `step.{index:02d}`: the identifiers of steps come after those of the boundaries.
abbrev pub replay_step : ℕ → ActionEnvelope → ReplayStep
replay_step k e = record {
  step_id = 4 + k;
  action = e;
  oracle_expectations = [];
  timeout_in_ms = default_timeout;
}

unfoldable pub replay_steps : ℕ → List ActionEnvelope → Result ReplayError (List ReplayStep)
replay_steps k [] = ok []
replay_steps k (e ∷ es) = do
  s ← validate_step (replay_step k e)
  ss ← replay_steps (suc k) es
  ok (s ∷ ss)

-- `to_replay_plan`.
unfoldable pub to_replay_plan : CompiledChain → ℕ → Result ReplayError ReplayPlan
to_replay_plan c plan_id = do
  steps ← replay_steps 0 c.action_envelopes
  validate_plan (record { plan_id = plan_id; root_seed_id = c.root_seed_id; steps = steps })
