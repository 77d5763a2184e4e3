-- ===== src/Replay/Kernel.antt =====
-- `ReplayKernel.replay` of packages/replay/src/stateweaver/replay/kernel.py: reset, steps, cleanup and report.
pub mod Logged
pub mod Valid
pub mod Reports
pub mod Total
pub mod Success
use stateweaver.Common.{
  ℕ, Bool, true, false, not, Option, none, some, List, [], ◌∷◌, ◌++◌, Result, ok, err, ◌>>=◌, ◌==◌,
  if◌then◌else◌,
}
use stateweaver.Contracts.Actions.{ActionEnvelope}
use stateweaver.Replay.Captures.{StateCapture}
use stateweaver.Replay.Models.{
  ReplayError, RootSeed, ReplayStep, ReplayPlan, failed, Phase, preflight, reset, FailureCode,
  plan_root_mismatch, root_fingerprint_mismatch, cleanup_failure, phase_timeout, phase_failure,
  FailureMessage, explained, raised_by, ReplayStepResult, root_step, preflight_step,
  environment_step, cleanup_step,
}
use stateweaver.Replay.Results.{
  ReplayActionLogEntry, ReplayRunStatus, succeeded, run_failed, root_diverged, cleanup_failed,
  ReplayDigests, ReplayRunResult, TraceProjection, action_type, evidence_of, parameter_of,
  find_result, validate_entry, validate_run,
}
use stateweaver.Replay.Ports.{Answer, returned, timed_out, cancelled, raised, Ports}
use stateweaver.Replay.Steps.{Ran, ran, run_cut, run_steps, fingerprint_of}

-- The local variables of `replay`.
pub record RunState : Type 0 where
  pub results : List ReplayStepResult
  pub root_capture : Option StateCapture
  pub final_capture : Option StateCapture
  pub status : ReplayRunStatus
  pub failed_step_id : Option ℕ

-- How an activity ends: with a report, with the error of a model, or cancelled.
pub data End {ℓ} (A : Type ℓ) : Type ℓ where
  reported : A → End A
  invalid : ReplayError → End A
  interrupted : End A

-- The result of a boundary.
abbrev pub boundary : ℕ → Option ℕ → FailureCode → FailureMessage → ReplayStepResult
boundary k fingerprint code message = record {
  step_id = k;
  status = failed;
  before_fingerprint = fingerprint;
  after_fingerprint = none;
  observations = [];
  oracle_results = [];
  failure_code = some code;
  failure_message = some message;
}

abbrev pub halted : ReplayStepResult → Option StateCapture → ReplayRunStatus → RunState
halted r c status = record {
  results = r ∷ [];
  root_capture = c;
  final_capture = c;
  status = status;
  failed_step_id = some r.step_id;
}

abbrev pub status_of : Option ℕ → ReplayRunStatus
status_of none = succeeded
status_of (some _) = run_failed

abbrev pub or_cleanup : Option ℕ → Option ℕ
or_cleanup none = some cleanup_step
or_cleanup (some k) = some k

-- After the `finally`: `cleanup_failure` is noted.
unfoldable pub with_cleanup : RunState → Option ℕ → RunState
with_cleanup st none = st
with_cleanup st (some name) = record st {
  results = st.results ++ boundary cleanup_step none cleanup_failure (raised_by name) ∷ [];
  status = cleanup_failed;
  failed_step_id = or_cleanup st.failed_step_id;
}

module _ {E : Type 0} (ports : Ports E) where
  abbrev pub of_ran : StateCapture → Ran × E → Option RunState × E
  of_ran root (run_cut, e) = (none, e)
  of_ran root (ran results final fails, e) = (
    some (record {
      results = results;
      root_capture = some root;
      final_capture = some final;
      status = status_of fails;
      failed_step_id = fails;
    }),
    e,
  )

  -- After the reset: the pinned fingerprint is compared, then the steps are run.
  unfoldable pub from_root : ReplayPlan → RootSeed → StateCapture → E → Option RunState × E
  from_root plan root c e =
      if c.fingerprint == root.capture.fingerprint
      then of_ran c (run_steps ports plan.steps c e)
      else (
        some (
            halted (boundary root_step (some c.fingerprint) root_fingerprint_mismatch explained)
              (some c) root_diverged),
        e,
      )

  -- The `try` with its handlers; `none` is a cancellation.
  unfoldable pub run_plan : ReplayPlan → RootSeed → E → Option RunState × E
  run_plan plan root e =
      if not (plan.root_seed_id == root.root_seed_id)
      then (
        some (halted (boundary preflight_step none plan_root_mismatch explained) none run_failed),
        e,
      )
      else let (answer, e') = ports.reset_root root e in
        elim answer [
          | returned c ↦ from_root plan root c e'
          | timed_out ↦ (
            some (
                halted (boundary environment_step none (phase_timeout reset) explained) none
                  run_failed),
            e',
          )
          | raised name ↦ (
            some (
                halted (boundary environment_step none (phase_failure reset) (raised_by name)) none
                  run_failed),
            e',
          )
          | cancelled ↦ (none, e')
        ]

module _ (h : ReplayDigests) where
  abbrev pub log_entry : ℕ → ReplayStep → ReplayStepResult → ReplayActionLogEntry
  log_entry plan s r = record {
    step_id = s.step_id;
    action = s.action;
    action_id = s.action.action_id;
    kind = action_type s.action.action;
    sequence = s.action.sequence;
    status = r.status;
    idempotency_key = s.action.idempotency_key;
    policy_decision_ref = s.action.policy_decision_ref;
    trace_id = h.trace plan s.step_id (h.envelope s.action);
    parameter_artifact = parameter_of s.action.action;
    envelope_hash = h.envelope s.action;
    request_template_hash = h.template s.action.action;
    before_fingerprint = r.before_fingerprint;
    after_fingerprint = r.after_fingerprint;
    observation_hash = h.observations r.observations;
    oracle_results_hash = h.oracle_results r.oracle_results;
    evidence_ids = evidence_of r;
  }

  -- `_build_action_log`: each entry is checked when it is made.
  unfoldable pub build_action_log :
      ℕ → List ReplayStep → List ReplayStepResult → Result ReplayError (List ReplayActionLogEntry)
  build_action_log plan [] rs = ok []
  build_action_log plan (s ∷ ss) rs = elim (find_result s.step_id rs) [
    | none ↦ build_action_log plan ss rs
    | some r ↦ (do
      x ← validate_entry h (log_entry plan s r)
      xs ← build_action_log plan ss rs
      ok (x ∷ xs))
  ]

  abbrev pub trace_of : ReplayPlan → RunState → List ReplayActionLogEntry → TraceProjection
  trace_of plan st log = record {
    plan_id = plan.plan_id;
    status = st.status;
    root_fingerprint = fingerprint_of st.root_capture;
    final_fingerprint = fingerprint_of st.final_capture;
    steps = st.results;
    action_log = log;
    failed_step_id = st.failed_step_id;
  }

  abbrev pub run_result : ℕ → ReplayPlan → RunState → List ReplayActionLogEntry → ReplayRunResult
  run_result run_id plan st log = record {
    run_id = run_id;
    plan_id = plan.plan_id;
    status = st.status;
    root_fingerprint = fingerprint_of st.root_capture;
    final_fingerprint = fingerprint_of st.final_capture;
    steps = st.results;
    action_log = log;
    failed_step_id = st.failed_step_id;
    trace_hash = h.run (trace_of plan st log);
  }

  -- The report of a run.
  unfoldable pub report : ℕ → ReplayPlan → RunState → Result ReplayError ReplayRunResult
  report run_id plan st = do
    log ← build_action_log plan.plan_id plan.steps st.results
    validate_run h (run_result run_id plan st log)

  abbrev pub to_end {ℓ} : {A : Type ℓ} → Result ReplayError A → End A
  to_end (ok a) = reported a
  to_end (err x) = invalid x

  -- `replay`: `cleanup` is awaited in every case, and its exceptions are caught.
  unfoldable pub replay :
      {E : Type 0} → Ports E → ReplayPlan → RootSeed → ℕ → E → End ReplayRunResult × E
  replay ports plan root run_id e =
      let (state, e') = run_plan ports plan root e in
      let (answer, e'') = ports.clean_up e' in
      elim state [
        | none ↦ (interrupted, e'')
        | some st ↦ elim answer [
          | returned _ ↦ (to_end (report run_id plan (with_cleanup st none)), e'')
          | timed_out ↦
              (to_end (report run_id plan (with_cleanup st (some ports.timeout_error))), e'')
          | raised name ↦ (to_end (report run_id plan (with_cleanup st (some name))), e'')
          | cancelled ↦ (interrupted, e'')
        ]
      ]
