-- ===== src/Replay/Results.antt =====
-- The action log and the result of a run of packages/replay/src/stateweaver/replay/models.py, with the check
-- that a result makes of itself.
use stateweaver.Common.{
  ℕ, Bool, true, false, not, ◌&&◌, ◌||◌, Option, none, some, List, [], ◌∷◌, ◌++◌, map, Result, ok,
  err, raise_if, ◌>>◌, ◌==◌, is_some, is_empty, contains, unique, all, any, text_eq, if◌then◌else◌,
}
use stateweaver.Contracts.Actions.{
  Action, ActionEnvelope, http_request_action, browser_navigate, browser_click, browser_fill,
  queue_reorder_action, queue_release, time_advance, time_set, session_rotate,
}
use stateweaver.Replay.Models.{
  ReplayError, evidence_repeats, envelope_differs, not_only_passed, fingerprints_missing,
  failed_step_named, no_failed_step, failed_step_differs, not_a_root_failure, cleanup_mismatch,
  log_repeats, log_misaligned, status_differs, result_hashes_differ, trace_id_differs,
  trace_hash_differs, steps_repeat, root_step, cleanup_step, is_reserved, ReplayObservation,
  OracleResult, ReplayStepStatus, ReplayStepResult, root_fingerprint_mismatch, is_passed, is_failed,
  same_status,
}

-- `action_type`: each action has its own.
pub data ActionType : Type 0 where
  http_request_type browser_navigate_type browser_click_type browser_fill_type : ActionType
  queue_reorder_type queue_release_type time_advance_type time_set_type session_rotate_type :
      ActionType

unfoldable pub action_type : Action → ActionType
action_type (http_request_action _ _ _ _) = http_request_type
action_type (browser_navigate _ _) = browser_navigate_type
action_type browser_click = browser_click_type
action_type (browser_fill _) = browser_fill_type
action_type queue_reorder_action = queue_reorder_type
action_type queue_release = queue_release_type
action_type (time_advance _) = time_advance_type
action_type time_set = time_set_type
action_type (session_rotate _) = session_rotate_type

unfoldable pub ActionType-discrete : Discrete ActionType
ActionType-discrete = hlevel

pub record ReplayActionLogEntry : Type 0 where
  pub step_id : ℕ
  pub action : ActionEnvelope
  pub action_id : ℕ
  pub kind : ActionType
  pub sequence : ℕ
  pub status : ReplayStepStatus
  pub idempotency_key : ℕ
  pub policy_decision_ref : ℕ
  pub trace_id : ℕ
  pub parameter_artifact : Option ℕ
  pub envelope_hash : ℕ
  pub request_template_hash : ℕ
  pub before_fingerprint : Option ℕ
  pub after_fingerprint : Option ℕ
  pub observation_hash : ℕ
  pub oracle_results_hash : ℕ
  pub evidence_ids : List ℕ

pub data ReplayRunStatus : Type 0 where
  succeeded run_failed root_diverged cleanup_failed : ReplayRunStatus

-- What `deterministic_signature` and the trace hash project.
pub record TraceProjection : Type 0 where
  pub plan_id : ℕ
  pub status : ReplayRunStatus
  pub root_fingerprint : Option ℕ
  pub final_fingerprint : Option ℕ
  pub steps : List ReplayStepResult
  pub action_log : List ReplayActionLogEntry
  pub failed_step_id : Option ℕ

-- `canonical_sha256` of what the kernel hashes; `trace` is of plan, step and envelope.
pub record ReplayDigests : Type 0 where
  pub envelope : ActionEnvelope → ℕ
  pub template : Action → ℕ
  pub trace : ℕ → ℕ → ℕ → ℕ
  pub observations : List ReplayObservation → ℕ
  pub oracle_results : List OracleResult → ℕ
  pub run : TraceProjection → ℕ

pub record ReplayRunResult : Type 0 where
  pub run_id : ℕ
  pub plan_id : ℕ
  pub status : ReplayRunStatus
  pub root_fingerprint : Option ℕ
  pub final_fingerprint : Option ℕ
  pub steps : List ReplayStepResult
  pub action_log : List ReplayActionLogEntry
  pub failed_step_id : Option ℕ
  pub trace_hash : ℕ

-- `dict.fromkeys`: the first occurrence of each.
unfoldable pub first_occurrences : (seen : List ℕ) → List ℕ → List ℕ
first_occurrences seen [] = []
first_occurrences seen (x ∷ xs) =
    let skipped = first_occurrences seen xs in
    let kept = first_occurrences (x ∷ seen) xs in if contains seen x then skipped else x ∷ kept

unfoldable pub observed_evidence : List ReplayObservation → List ℕ
observed_evidence [] = []
observed_evidence (x ∷ xs) = x.evidence_ids ++ observed_evidence xs

unfoldable pub oracle_evidence : List OracleResult → List ℕ
oracle_evidence [] = []
oracle_evidence (x ∷ xs) = x.evidence_ids ++ oracle_evidence xs

-- `evidence_ids` of a step.
unfoldable pub evidence_of : ReplayStepResult → List ℕ
evidence_of r =
    first_occurrences [] (observed_evidence r.observations ++ oracle_evidence r.oracle_results)

-- The body artifact of an HTTP request.
abbrev pub parameter_of : Action → Option ℕ
parameter_of (http_request_action _ _ _ artifact) = artifact
parameter_of _ = none

abbrev pub same_option : Option ℕ → Option ℕ → Bool
same_option none none = true
same_option (some a) (some b) = a == b
same_option _ _ = false

abbrev pub same_type : ActionType → ActionType → Bool
same_type a b = elim (ActionType-discrete a b) [ yes _ ↦ true | no _ ↦ false ]

abbrev pub result_ids : List ReplayStepResult → List ℕ
result_ids = map (λ (r : ReplayStepResult). r.step_id)

abbrev pub log_ids : List ReplayActionLogEntry → List ℕ
log_ids = map (λ (x : ReplayActionLogEntry). x.step_id)

-- `{result.step_id: result}`: the last of each identifier.
unfoldable pub find_result : ℕ → List ReplayStepResult → Option ReplayStepResult
find_result k [] = none
find_result k (r ∷ rs) = elim (find_result k rs) [
  | some x ↦ some x
  | none ↦ if r.step_id == k then some r else none
]

-- `failed_steps`.
unfoldable pub failed_steps : List ReplayStepResult → List ReplayStepResult
failed_steps [] = []
failed_steps (r ∷ rs) = let rest = failed_steps rs in if is_failed r.status then r ∷ rest else rest

-- `expected_ids`.
unfoldable pub action_ids : List ReplayStepResult → List ℕ
action_ids [] = []
action_ids (r ∷ rs) =
    let rest = action_ids rs in if is_reserved r.step_id then rest else r.step_id ∷ rest

abbrev pub is_root_failure : ReplayStepResult → Bool
is_root_failure r =
    r.step_id == root_step
    && elim r.failure_code [ some root_fingerprint_mismatch ↦ true | _ ↦ false ]

abbrev pub is_cleanup : ReplayStepResult → Bool
is_cleanup r = r.step_id == cleanup_step

abbrev pub is_succeeded : ReplayRunStatus → Bool
is_succeeded succeeded = true
is_succeeded _ = false

module _ (h : ReplayDigests) where
  -- `duplicated_action_fields_match_envelope`, after `evidence_is_unique`.
  unfoldable pub validate_entry : ReplayActionLogEntry → Result ReplayError ReplayActionLogEntry
  validate_entry x = do
    raise_if (not (unique x.evidence_ids)) evidence_repeats
    raise_if
        (not (x.action_id == x.action.action_id)
          || not (same_type x.kind (action_type x.action.action))
          || not (x.sequence == x.action.sequence)
          || not (x.idempotency_key == x.action.idempotency_key)
          || not (x.policy_decision_ref == x.action.policy_decision_ref)
          || not (same_option x.parameter_artifact (parameter_of x.action.action))
          || not (x.envelope_hash == h.envelope x.action)
          || not (x.request_template_hash == h.template x.action.action))
        envelope_differs
    ok x

  -- The checks of an entry against the result of its step.
  abbrev pub check_entry_result :
      ℕ → ReplayActionLogEntry → ReplayStepResult → Result ReplayError (Unit {0})
  check_entry_result plan x r = do
    raise_if (not (same_status r.status x.status)) status_differs
    raise_if
        (not (same_option x.before_fingerprint r.before_fingerprint)
          || not (same_option x.after_fingerprint r.after_fingerprint)
          || not (x.observation_hash == h.observations r.observations)
          || not (x.oracle_results_hash == h.oracle_results r.oracle_results)
          || not (text_eq x.evidence_ids (evidence_of r)))
        result_hashes_differ
    raise_if (not (x.trace_id == h.trace plan x.step_id x.envelope_hash)) trace_id_differs

  unfoldable pub check_entry :
      ℕ → List ReplayStepResult → ReplayActionLogEntry → Result ReplayError (Unit {0})
  check_entry plan rs x = elim (find_result x.step_id rs) [
    | none ↦ err status_differs
    | some r ↦ check_entry_result plan x r
  ]

  unfoldable pub check_log :
      ℕ → List ReplayStepResult → List ReplayActionLogEntry → Result ReplayError (Unit {0})
  check_log plan rs [] = ok tt
  check_log plan rs (x ∷ xs) = do check_entry plan rs x; check_log plan rs xs

  -- The checks of a status that is not `succeeded`.
  abbrev pub check_failure : ReplayRunResult → Result ReplayError (Unit {0})
  check_failure r = elim (failed_steps r.steps) [
    | [] ↦ err no_failed_step
    | x ∷ xs ↦ (do
      raise_if (not (same_option r.failed_step_id (some x.step_id))) failed_step_differs
      raise_if (elim r.status [ root_diverged ↦ not (is_root_failure x) | _ ↦ false ])
          not_a_root_failure)
  ]

  abbrev pub check_success : ReplayRunResult → Result ReplayError (Unit {0})
  check_success r = do
    raise_if (is_empty r.steps || not (all (λ (x : ReplayStepResult). is_passed x.status) r.steps))
        not_only_passed
    raise_if (not (is_some r.root_fingerprint) || not (is_some r.final_fingerprint))
        fingerprints_missing
    raise_if (is_some r.failed_step_id) failed_step_named

  abbrev pub is_cleanup_failed : ReplayRunStatus → Bool
  is_cleanup_failed cleanup_failed = true
  is_cleanup_failed _ = false

  abbrev pub differs : Bool → Bool → Bool
  differs true b = not b
  differs false b = b

  abbrev pub projection : ReplayRunResult → TraceProjection
  projection r = record {
    plan_id = r.plan_id;
    status = r.status;
    root_fingerprint = r.root_fingerprint;
    final_fingerprint = r.final_fingerprint;
    steps = r.steps;
    action_log = r.action_log;
    failed_step_id = r.failed_step_id;
  }

  -- `action_log_matches_step_results`.
  unfoldable pub validate_run : ReplayRunResult → Result ReplayError ReplayRunResult
  validate_run r = do
    raise_if (not (unique (result_ids r.steps))) steps_repeat
    if is_succeeded r.status then check_success r else check_failure r
    raise_if (differs (is_cleanup_failed r.status) (any is_cleanup (failed_steps r.steps)))
        cleanup_mismatch
    raise_if (not (unique (log_ids r.action_log))) log_repeats
    raise_if (not (text_eq (log_ids r.action_log) (action_ids r.steps))) log_misaligned
    check_log r.plan_id r.steps r.action_log
    raise_if (not (r.trace_hash == h.run (projection r))) trace_hash_differs
    ok r

  -- `deterministic_signature`.
  abbrev pub deterministic_signature : ReplayRunResult → ℕ
  deterministic_signature r = h.run (projection r)
