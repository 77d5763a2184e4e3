-- ===== src/Replay/Models.antt =====
-- packages/replay/src/stateweaver/replay/models.py: captures, plans and the results of steps. A string is a
-- number, of which the first four are the names of the boundary steps; a timeout is in milliseconds. Digests are arguments.
use stateweaver.Common.{
  ℕ, Bool, true, false, not, ◌&&◌, ◌||◌, Option, List, [], ◌∷◌, map, Result, ok, raise_if, ◌>>◌,
  ◌==◌, ltb, any, is_some, is_empty, unique,
}
use stateweaver.Replay.Captures.{StateCapture}
use stateweaver.Contracts.Actions.{ActionEnvelope}

pub record RootSeed : Type 0 where
  pub root_seed_id : ℕ
  pub target_version : ℕ
  pub random_seed : ℕ
  pub clock_epoch : ℕ
  pub capture : StateCapture
  pub adapter_versions : ℕ

pub record ReplayObservation : Type 0 where
  pub observation_id : ℕ
  pub kind : ℕ
  pub payload : ℕ
  pub evidence_ids : List ℕ

-- `details` stands for the fields of an `OracleResult` that a replay only hashes.
pub record OracleResult : Type 0 where
  pub verdict : ℕ
  pub evidence_ids : List ℕ
  pub details : ℕ

pub record OracleExpectation : Type 0 where
  pub oracle_id : ℕ
  pub allowed_results : List ℕ

pub record ReplayStep : Type 0 where
  pub step_id : ℕ
  pub action : ActionEnvelope
  pub oracle_expectations : List OracleExpectation
  pub timeout_in_ms : ℕ

pub record ReplayPlan : Type 0 where
  pub plan_id : ℕ
  pub root_seed_id : ℕ
  pub steps : List ReplayStep

pub data ReplayError : Type 0 where
  epoch_differs timeout_expands expectations_repeat no_results : ReplayError
  no_steps reserved_step steps_repeat keys_repeat sequence_unordered : ReplayError
  failure_missing failure_unexpected evidence_repeats envelope_differs : ReplayError
  not_only_passed fingerprints_missing failed_step_named no_failed_step failed_step_differs :
      ReplayError
  not_a_root_failure cleanup_mismatch log_repeats log_misaligned status_differs : ReplayError
  result_hashes_differ trace_id_differs trace_hash_differs : ReplayError
  too_few_runs runs_repeat lengths_differ success_differs flag_differs classification_differs :
      ReplayError
  divergent_run_absent divergent_run_differs : ReplayError

-- The boundary names.
abbrev pub root_step : ℕ
root_step = 0

abbrev pub preflight_step : ℕ
preflight_step = 1

abbrev pub environment_step : ℕ
environment_step = 2

abbrev pub cleanup_step : ℕ
cleanup_step = 3

abbrev pub is_reserved : ℕ → Bool
is_reserved k = ltb k 4

-- `capture_matches_epoch`.
unfoldable pub validate_root : RootSeed → Result ReplayError RootSeed
validate_root r = do raise_if (not (r.capture.controlled_at == r.clock_epoch)) epoch_differs; ok r

-- `at_least_one_allowed_result`.
unfoldable pub validate_expectation : OracleExpectation → Result ReplayError OracleExpectation
validate_expectation x = do raise_if (is_empty x.allowed_results) no_results; ok x

abbrev pub expectation_ids : List OracleExpectation → List ℕ
expectation_ids = map (λ (x : OracleExpectation). x.oracle_id)

-- `timeout_does_not_expand_authorization`.
unfoldable pub validate_step : ReplayStep → Result ReplayError ReplayStep
validate_step s = do
  raise_if (ltb s.action.timeout_ms s.timeout_in_ms) timeout_expands
  raise_if (not (unique (expectation_ids s.oracle_expectations))) expectations_repeat
  ok s

-- `sequences == sorted(sequences)` with no repetition.
unfoldable pub increasing : List ℕ → Bool
increasing [] = true
increasing (x ∷ []) = true
increasing (x ∷ y ∷ ys) = let rest = increasing (y ∷ ys) in ltb x y && rest

abbrev pub step_ids : List ReplayStep → List ℕ
step_ids = map (λ (s : ReplayStep). s.step_id)

abbrev pub idempotency_keys : List ReplayStep → List ℕ
idempotency_keys = map (λ (s : ReplayStep). s.action.idempotency_key)

abbrev pub sequences : List ReplayStep → List ℕ
sequences = map (λ (s : ReplayStep). s.action.sequence)

-- `identifiers_are_unique`.
unfoldable pub validate_plan : ReplayPlan → Result ReplayError ReplayPlan
validate_plan p = do
  raise_if (is_empty p.steps) no_steps
  raise_if (any is_reserved (step_ids p.steps)) reserved_step
  raise_if (not (unique (step_ids p.steps))) steps_repeat
  raise_if (not (unique (idempotency_keys p.steps))) keys_repeat
  raise_if (not (increasing (sequences p.steps))) sequence_unordered
  ok p

pub data ReplayStepStatus : Type 0 where
  passed failed skipped : ReplayStepStatus

-- Where in a run or a step a boundary failed.
pub data Phase : Type 0 where
  preflight reset replaying capture_before execute capture_after oracle : Phase

pub data FailureCode : Type 0 where
  plan_root_mismatch root_fingerprint_mismatch oracle_expectation_mismatch cleanup_failure :
      FailureCode
  phase_timeout phase_failure : Phase → FailureCode

-- `explained` is a fixed text, `raised_by` the name of the type of an exception.
pub data FailureMessage : Type 0 where
  explained : FailureMessage
  raised_by : ℕ → FailureMessage

pub record ReplayStepResult : Type 0 where
  pub step_id : ℕ
  pub status : ReplayStepStatus
  pub before_fingerprint : Option ℕ
  pub after_fingerprint : Option ℕ
  pub observations : List ReplayObservation
  pub oracle_results : List OracleResult
  pub failure_code : Option FailureCode
  pub failure_message : Option FailureMessage

abbrev pub is_passed : ReplayStepStatus → Bool
is_passed passed = true
is_passed _ = false

abbrev pub is_failed : ReplayStepStatus → Bool
is_failed failed = true
is_failed _ = false

abbrev pub same_status : ReplayStepStatus → ReplayStepStatus → Bool
same_status passed passed = true
same_status failed failed = true
same_status skipped skipped = true
same_status _ _ = false

-- `failure_shape_matches_status`.
unfoldable pub validate_step_result : ReplayStepResult → Result ReplayError ReplayStepResult
validate_step_result r = do
  let has_failure = is_some r.failure_code || is_some r.failure_message
  raise_if (is_failed r.status && not has_failure) failure_missing
  raise_if (not (is_failed r.status) && has_failure) failure_unexpected
  ok r
