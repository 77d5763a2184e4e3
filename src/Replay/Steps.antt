-- ===== src/Replay/Steps.antt =====
-- One step and the loop over the steps of packages/replay/src/stateweaver/replay/kernel.py.
pub mod Recorded
use stateweaver.Common.{
  ℕ, Bool, true, false, not, ◌&&◌, Option, none, some, List, [], ◌∷◌, map, contains, if◌then◌else◌,
}
use stateweaver.Replay.Captures.{StateCapture}
use stateweaver.Replay.Models.{
  ReplayObservation, OracleResult, OracleExpectation, ReplayStep, ReplayStepStatus, passed, failed,
  skipped, Phase, capture_before, execute, capture_after, oracle, FailureCode,
  oracle_expectation_mismatch, phase_timeout, phase_failure, FailureMessage, explained, raised_by,
  ReplayStepResult,
}
use stateweaver.Replay.Ports.{Answer, returned, timed_out, cancelled, raised, Ports}

-- What a step has when it is stopped: the local variables of `_execute_step`.
pub record Progress : Type 0 where
  pub phase : Phase
  pub before : Option StateCapture
  pub observations : List ReplayObservation
  pub after : Option StateCapture

pub data Trouble : Type 0 where
  by_timeout : Trouble
  by_exception : ℕ → Trouble

-- How the body of the `try` ends.
pub data Attempt : Type 0 where
  finished : (before after : StateCapture) → List ReplayObservation → List OracleResult → Attempt
  stopped : Progress → Trouble → Attempt
  abandoned : Attempt

-- A step with its result and the capture that is stable after it, or a cancellation.
pub data Stepped : Type 0 where
  stepped : ReplayStepResult → StateCapture → Stepped
  step_cancelled : Stepped

-- The loop over the steps: results, the last capture and the step that failed.
pub data Ran : Type 0 where
  ran : List ReplayStepResult → StateCapture → Option ℕ → Ran
  run_cut : Ran

-- `_expectations_match`.
unfoldable pub expectations_match : List OracleExpectation → List OracleResult → Bool
expectations_match [] [] = true
expectations_match [] (r ∷ rs) = false
expectations_match (x ∷ xs) [] = false
expectations_match (x ∷ xs) (r ∷ rs) =
    contains x.allowed_results r.verdict && expectations_match xs rs

abbrev skipped_result : ReplayStep → ReplayStepResult
skipped_result s = record {
  step_id = s.step_id;
  status = skipped;
  before_fingerprint = none;
  after_fingerprint = none;
  observations = [];
  oracle_results = [];
  failure_code = none;
  failure_message = none;
}

-- `_skipped_results`.
unfoldable pub skipped_results : List ReplayStep → List ReplayStepResult
skipped_results [] = []
skipped_results (s ∷ ss) = skipped_result s ∷ skipped_results ss

abbrev pub fingerprint_of : Option StateCapture → Option ℕ
fingerprint_of none = none
fingerprint_of (some c) = some c.fingerprint

abbrev pub or_capture : Option StateCapture → StateCapture → StateCapture
or_capture none c = c
or_capture (some b) c = b

-- The result of a step whose body is finished.
unfoldable pub finished_result :
    ReplayStep
    → (before after : StateCapture) → List ReplayObservation
    → List OracleResult
    → ReplayStepResult
finished_result s before after observations results =
    if expectations_match s.oracle_expectations results
    then record {
      step_id = s.step_id;
      status = passed;
      before_fingerprint = some before.fingerprint;
      after_fingerprint = some after.fingerprint;
      observations = observations;
      oracle_results = results;
      failure_code = none;
      failure_message = none;
    }
    else record {
      step_id = s.step_id;
      status = failed;
      before_fingerprint = some before.fingerprint;
      after_fingerprint = some after.fingerprint;
      observations = observations;
      oracle_results = results;
      failure_code = some oracle_expectation_mismatch;
      failure_message = some explained;
    }

abbrev trouble_code : Phase → Trouble → FailureCode
trouble_code p by_timeout = phase_timeout p
trouble_code p (by_exception _) = phase_failure p

abbrev trouble_message : Trouble → FailureMessage
trouble_message by_timeout = explained
trouble_message (by_exception name) = raised_by name

-- The result of a step that was stopped, with the capture that was recovered.
unfoldable pub stopped_result :
    ReplayStep → StateCapture → Progress → Trouble → Option StateCapture → ReplayStepResult
stopped_result s fallback p t recovered = record {
  step_id = s.step_id;
  status = failed;
  before_fingerprint = some (or_capture p.before fallback).fingerprint;
  after_fingerprint = fingerprint_of recovered;
  observations = p.observations;
  oracle_results = [];
  failure_code = some (trouble_code p.phase t);
  failure_message = some (trouble_message t);
}

module _ {E : Type 0} (ports : Ports E) where
  -- An await in the `try`.
  abbrev pub awaiting {ℓ} :
      {A : Type ℓ} → Answer A × E → Progress → (A → E → Attempt × E) → Attempt × E
  awaiting (returned a, e) p k = k a e
  awaiting (timed_out, e) p k = (stopped p by_timeout, e)
  awaiting (raised name, e) p k = (stopped p (by_exception name), e)
  awaiting (cancelled, e) p k = (abandoned, e)

  abbrev after_oracle :
      OracleResult → Answer (List OracleResult) × E → Answer (List OracleResult) × E
  after_oracle r (returned rs, e) = (returned (r ∷ rs), e)
  after_oracle r (timed_out, e) = (timed_out, e)
  after_oracle r (raised name, e) = (raised name, e)
  after_oracle r (cancelled, e) = (cancelled, e)

  -- `_evaluate_oracles`.
  unfoldable pub evaluate_oracles :
      List OracleExpectation
      → ReplayStep
      → (before after : StateCapture) → List ReplayObservation
      → E
      → Answer (List OracleResult) × E
  evaluate_oracles [] s before after observations e = (returned [], e)
  evaluate_oracles (x ∷ xs) s before after observations e = elim (ports.is_registered x.oracle_id) [
    | false ↦ (raised ports.lookup_error, e)
    | true ↦
        let (answer, e') = ports.evaluate_oracle x.oracle_id before s.action after observations e in
        elim answer [
          | returned r ↦ after_oracle r (evaluate_oracles xs s before after observations e')
          | timed_out ↦ (timed_out, e')
          | raised name ↦ (raised name, e')
          | cancelled ↦ (cancelled, e')
        ]
  ]

  abbrev at_phase :
      Phase → Option StateCapture → List ReplayObservation → Option StateCapture → Progress
  at_phase p before observations after = record {
    phase = p;
    before = before;
    observations = observations;
    after = after;
  }

  -- The body of the `try` of `_execute_step`.
  unfoldable pub attempt_step : ReplayStep → E → Attempt × E
  attempt_step s e =
      awaiting (ports.capture_state e) (at_phase capture_before none [] none) (λ before e1.
        awaiting (ports.execute_action s.action e1) (at_phase execute (some before) [] none)
          (λ observations e2.
            awaiting (ports.capture_state e2)
              (at_phase capture_after (some before) observations none)
              (λ after e3.
                awaiting (evaluate_oracles s.oracle_expectations s before after observations e3)
                  (at_phase oracle (some before) observations (some after))
                  (λ results e4. (finished before after observations results, e4)))))

  -- `_best_effort_capture`.
  unfoldable pub best_effort_capture : E → Answer (Option StateCapture) × E
  best_effort_capture e =
      let (answer, e') = ports.capture_state e in
      elim answer [
        | returned c ↦ (returned (some c), e')
        | timed_out ↦ (returned none, e')
        | raised _ ↦ (returned none, e')
        | cancelled ↦ (cancelled, e')
      ]

  -- `after or await self._best_effort_capture(...)`.
  unfoldable pub recover : Option StateCapture → E → Answer (Option StateCapture) × E
  recover (some c) e = (returned (some c), e)
  recover none e = best_effort_capture e

  -- The two handlers of `_execute_step`.
  unfoldable pub handle_trouble : ReplayStep → StateCapture → Progress → Trouble → E → Stepped × E
  handle_trouble s fallback p t e =
      let (answer, e') = recover p.after e in
      elim answer [
        | returned c ↦ (
          stepped (stopped_result s fallback p t c) (or_capture c (or_capture p.before fallback)),
          e',
        )
        | _ ↦ (step_cancelled, e')
      ]

  -- `_execute_step`.
  unfoldable pub execute_step : ReplayStep → StateCapture → E → Stepped × E
  execute_step s fallback e =
      let (attempt, e') = attempt_step s e in
      elim attempt [
        | finished before after observations results ↦
            (stepped (finished_result s before after observations results) after, e')
        | stopped p t ↦ handle_trouble s fallback p t e'
        | abandoned ↦ (step_cancelled, e')
      ]

  abbrev pub after_step : ReplayStepResult → Ran × E → Ran × E
  after_step r (ran rs c f, e) = (ran (r ∷ rs) c f, e)
  after_step r (run_cut, e) = (run_cut, e)

  -- The loop over the steps in `replay`.
  unfoldable pub run_steps : List ReplayStep → StateCapture → E → Ran × E
  run_steps [] c e = (ran [] c none, e)
  run_steps (s ∷ ss) c e =
      let (outcome, e') = execute_step s c e in
      elim outcome [
        | step_cancelled ↦ (run_cut, e')
        | stepped r c' ↦ elim r.status [
          | failed ↦ (ran (r ∷ skipped_results ss) c' (some s.step_id), e')
          | _ ↦ after_step r (run_steps ss c' e')
        ]
      ]
