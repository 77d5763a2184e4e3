-- ===== src/Replay/Tests.antt =====
-- A plan of two steps in an environment that counts, and the theorems at it.
use stateweaver.Common.{
  ℕ, suc, ◌+◌, ◌≡◌, ◌≢◌, refl, true, false, none, some, [], ◌∷◌, ok, arith, length,
}
use stateweaver.Contracts.Actions.{action_scope, validate_envelope, validate_scope_authorization}
use stateweaver.Contracts.Scope.{
  ScopeAction-discrete, RiskClass-discrete, requirement_for, valid_at,
}
use stateweaver.Replay.Models.{
  validate_root, validate_expectation, validate_step, increasing, validate_plan,
  validate_step_result,
}
use stateweaver.Replay.Results.{
  action_type, ActionType-discrete, first_occurrences, observed_evidence, oracle_evidence,
  evidence_of, find_result, failed_steps, action_ids, validate_entry, check_entry, check_log,
  validate_run,
}
use stateweaver.Replay.Steps.{
  expectations_match, skipped_results, finished_result, stopped_result, evaluate_oracles,
  attempt_step, best_effort_capture, recover, handle_trouble, execute_step, run_steps,
}
use stateweaver.Replay.Kernel.{with_cleanup, from_root, run_plan, build_action_log, report, replay}
use stateweaver.Replay.Determinism.{
  first_divergent, validate_report, replay_all, verify_determinism,
}
use stateweaver.Common.{contains, unique, text_eq, ℕ_discrete}
use stateweaver.Contracts.Scope.{reversible_state_change}
use stateweaver.Contracts.Actions.{ActionEnvelope, time_advance}
use stateweaver.Replay.Captures.{StateCapture}
use stateweaver.Replay.Models.{RootSeed, ReplayStep, ReplayPlan, no_steps}
use stateweaver.Replay.Results.{ReplayDigests, ReplayRunResult, succeeded, run_failed}
use stateweaver.Replay.Ports.{Ports, returned}
use stateweaver.Replay.Kernel.{reported, invalid}
use stateweaver.Replay.Kernel.Total.{replay_total}
use stateweaver.Replay.Kernel.Success.{IsSuccess, replay-IsSuccess}
use stateweaver.Replay.Determinism.{DeterminismReport, deterministic_class}
use stateweaver.Replay.Determinism.Reported.{verify_determinism_total, verify_determinism_agrees}
use mathlib.Core.List.{Permᴰ}
use stateweaver.Replay.Captures.{
  StateArtifact, CaptureDigests, application, database, layer_rank, insert_summary, sort_summaries,
  validate_artifact, from_payload, validate_capture, from_artifacts,
}
use stateweaver.Replay.Captures.Fingerprints.{fingerprint_unordered}

-- On an `unfolding` line this opens the code.
engine : Unit {0}
unfolding action_scope validate_envelope validate_scope_authorization ScopeAction-discrete
    RiskClass-discrete requirement_for valid_at validate_root validate_expectation validate_step
    increasing validate_plan validate_step_result action_type ActionType-discrete first_occurrences
    observed_evidence oracle_evidence evidence_of find_result failed_steps action_ids validate_entry
    check_entry check_log validate_run expectations_match skipped_results finished_result
    stopped_result evaluate_oracles attempt_step best_effort_capture recover handle_trouble
    execute_step run_steps with_cleanup from_root run_plan build_action_log report replay
    first_divergent validate_report replay_all verify_determinism contains unique text_eq ℕ_discrete
    layer_rank insert_summary sort_summaries validate_artifact from_payload validate_capture
    from_artifacts
engine = tt

abbrev state_at : ℕ → StateCapture
state_at k = record { capture_id = k; controlled_at = 0; artifacts = []; fingerprint = k }

-- The reset sets the counter to one, and an action adds one to it.
abbrev counter : Ports ℕ
counter = record {
  reset_root = λ root e. (returned (state_at 1), 1);
  capture_state = λ e. (returned (state_at e), e);
  execute_action = λ a e. (
    returned (record { observation_id = e; kind = 0; payload = 0; evidence_ids = e ∷ 9 ∷ [] } ∷ []),
    suc e,
  );
  clean_up = λ e. (returned tt, e);
  is_registered = λ k. true;
  evaluate_oracle = λ k b a c o e.
      (returned (record { verdict = c.fingerprint; evidence_ids = 9 ∷ []; details = 0 }), e);
  lookup_error = 1;
  timeout_error = 2;
}

abbrev digests : ReplayDigests
digests = record {
  envelope = λ e. e.action_id;
  template = λ a. 0;
  trace = λ p s e. s;
  observations = λ o. length o;
  oracle_results = λ o. length o;
  run = λ t. length t.steps;
}

abbrev envelope : ℕ → ActionEnvelope
envelope k = record {
  action_id = k;
  world_id = 5;
  idempotency_key = k;
  policy_decision_ref = k;
  sequence = k;
  details = 0;
  scope_action = action_scope (time_advance 5);
  action = time_advance 5;
  risk_class = reversible_state_change;
  approval_ref = none;
  timeout_ms = 100;
}

abbrev step : ℕ → ℕ → ReplayStep
step k verdict = record {
  step_id = 4 + k;
  action = envelope k;
  oracle_expectations = record { oracle_id = 1; allowed_results = verdict ∷ [] } ∷ [];
  timeout_in_ms = 50;
}

abbrev plan : ReplayPlan
plan = record { plan_id = 1; root_seed_id = 3; steps = step 0 2 ∷ step 1 3 ∷ [] }

abbrev root : RootSeed
root = record {
  root_seed_id = 3;
  target_version = 1;
  random_seed = 0;
  clock_epoch = 0;
  capture = state_at 1;
  adapter_versions = 0;
}

plan_test : validate_plan plan ≡ ok plan
unfolding engine
plan_test = refl

abbrev nothing : ReplayRunResult
nothing = record {
  run_id = 0;
  plan_id = 0;
  status = run_failed;
  root_fingerprint = none;
  final_fingerprint = none;
  steps = [];
  action_log = [];
  failed_step_id = none;
  trace_hash = 0;
}

abbrev result : ReplayRunResult
unfolding engine
result = elim (replay digests counter plan root 8 0).0 [ reported r ↦ r | _ ↦ nothing ]

replay_test : (replay digests counter plan root 8 0).0 ≡ reported result
unfolding engine
replay_test = refl

success_test : result.status ≡ succeeded
unfolding engine
success_test = refl

-- The second step expects another verdict.
failing_test :
    (elim (replay digests counter (record plan { steps = step 0 2 ∷ step 1 5 ∷ [] }) root 8 0).0 [
      | reported r ↦ r.failed_step_id
      | _ ↦ none
    ])
    ≡ some 5
unfolding engine
failing_test = refl

replay_total_example : (replay digests counter plan root 8 0).0 ≢ invalid no_steps
replay_total_example = replay_total digests counter plan root 8 0 no_steps plan_test

replay-IsSuccess_example : IsSuccess plan root result
replay-IsSuccess_example =
    replay-IsSuccess digests counter plan root 8 0 result replay_test success_test

abbrev no_report : DeterminismReport
no_report = record {
  plan_id = 0;
  run_ids = [];
  run_statuses = [];
  signatures = [];
  deterministic = false;
  all_runs_succeeded = false;
  classification = deterministic_class;
  divergent_run_id = none;
}

abbrev findings : DeterminismReport
unfolding engine
findings = elim (verify_determinism digests counter plan root (8 ∷ 9 ∷ []) 0).0 [
  | reported d ↦ d
  | _ ↦ no_report
]

findings_test : (verify_determinism digests counter plan root (8 ∷ 9 ∷ []) 0).0 ≡ reported findings
unfolding engine
findings_test = refl

runs_test : unique (8 ∷ 9 ∷ []) ≡ true
unfolding engine
runs_test = refl

verify_determinism_total_example :
    (verify_determinism digests counter plan root (8 ∷ 9 ∷ []) 0).0 ≢ invalid no_steps
verify_determinism_total_example =
    verify_determinism_total digests counter plan root (8 ∷ 9 ∷ []) 0 no_steps plan_test
      (omega arith) runs_test

verify_determinism_agrees_example : findings.deterministic ≡ true
verify_determinism_agrees_example =
    verify_determinism_agrees digests counter plan root (8 ∷ 9 ∷ []) 0 findings (λ e1 e2. refl) refl
      findings_test

abbrev capture_digests : CaptureDigests
capture_digests = record {
  payload = λ p. p;
  capture = λ t xs. t + elim xs [ [] ↦ 0 | x ∷ _ ↦ x.content_hash ];
}

abbrev tables : StateArtifact
tables = record { layer = database; schema_version = 1; payload = 4; content_hash = 4 }

abbrev memory : StateArtifact
memory = record { layer = application; schema_version = 1; payload = 6; content_hash = 6 }

abbrev captured : StateCapture
captured = record {
  capture_id = 1;
  controlled_at = 2;
  artifacts = tables ∷ memory ∷ [];
  fingerprint = 8;
}

capture_test : from_artifacts capture_digests 1 2 (tables ∷ memory ∷ []) ≡ ok captured
unfolding engine
capture_test = refl

fingerprint_unordered_example :
    (d : StateCapture) × (from_artifacts capture_digests 7 2 (memory ∷ tables ∷ []) ≡ ok d)
    × (d.fingerprint ≡ captured.fingerprint)
fingerprint_unordered_example =
    fingerprint_unordered capture_digests 1 7 2 (tables ∷ memory ∷ []) (memory ∷ tables ∷ [])
      captured capture_test (Permᴰ.swap refl refl)
