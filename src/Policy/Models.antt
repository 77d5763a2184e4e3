-- ===== src/Policy/Models.antt =====
-- packages/policy/src/stateweaver/policy/models.py: the request, the outcome of each constraint, and the
-- decision with its check.
use stateweaver.Common.{
  ℕ, Bool, true, false, not, ◌&&◌, ◌||◌, Option, none, some, List, [], ◌∷◌, Result, ok, raise_if,
  ◌>>◌, same, any, all, is_some, is_empty, if◌then◌else◌,
}
use stateweaver.Contracts.Scope.{RiskClass, RiskClass-discrete, Decimal, ScopeManifest}
use stateweaver.Contracts.Actions.{ActionEnvelope}

pub data PolicyOutcome : Type 0 where
  allow deny require_approval : PolicyOutcome

pub data PolicyReasonCode : Type 0 where
  policy_allowed malformed_request context_missing scope_not_yet_valid scope_expired :
      PolicyReasonCode
  action_explicitly_denied action_not_listed approval_missing identity_missing : PolicyReasonCode
  identity_not_allowed target_missing target_not_included target_excluded : PolicyReasonCode
  request_budget_exhausted write_budget_exhausted timeout_limit_exceeded : PolicyReasonCode
  risk_class_disallowed risk_underclassified : PolicyReasonCode

unfoldable pub PolicyReasonCode-discrete : Discrete PolicyReasonCode
PolicyReasonCode-discrete = hlevel

pub data PolicyConstraint : Type 0 where
  context_complete scope_validity action_authorization approval identity target : PolicyConstraint
  request_budget write_budget timeout risk_class : PolicyConstraint

pub data ConstraintStatus : Type 0 where
  passed failed not_applicable : ConstraintStatus

pub record ConstraintResult : Type 0 where
  pub constraint : PolicyConstraint
  pub status : ConstraintStatus
  pub reason_code : Option PolicyReasonCode

abbrev pub is_failed : ConstraintStatus → Bool
is_failed failed = true
is_failed _ = false

pub data ModelError : Type 0 where
  reason_absent reason_superfluous : ModelError
  no_allowed_risk risk_repeats approval_risk_repeats approval_risk_not_allowed : ModelError
  no_reason reason_repeats allowed_with_failures reasons_differ not_approval_only : ModelError

-- `failure_shape_is_coherent`.
unfoldable pub validate_constraint : ConstraintResult → Result ModelError ConstraintResult
validate_constraint r = do
  raise_if (is_failed r.status && not (is_some r.reason_code)) reason_absent
  raise_if (not (is_failed r.status) && is_some r.reason_code) reason_superfluous
  ok r

pub record BudgetSnapshot : Type 0 where
  pub requests_in_window : ℕ
  pub request_window_seconds : Decimal
  pub write_requests_used : ℕ

pub record EvaluationConstraints : Type 0 where
  pub max_timeout_ms : ℕ
  pub allowed_risk_classes : List RiskClass
  pub approval_required_risk_classes : List RiskClass

abbrev pub has_risk : RiskClass → List RiskClass → Bool
has_risk r = any (λ x. same RiskClass-discrete x r)

unfoldable pub risks_unique : List RiskClass → Bool
risks_unique [] = true
risks_unique (r ∷ rs) = not (has_risk r rs) && risks_unique rs

-- `risk_sets_are_canonical`.
unfoldable pub validate_constraints :
    EvaluationConstraints → Result ModelError EvaluationConstraints
unfolding risks_unique
validate_constraints c = do
  raise_if (is_empty c.allowed_risk_classes) no_allowed_risk
  raise_if (not (risks_unique c.allowed_risk_classes)) risk_repeats
  raise_if (not (risks_unique c.approval_required_risk_classes)) approval_risk_repeats
  raise_if (not (all (λ r. has_risk r c.allowed_risk_classes) c.approval_required_risk_classes))
      approval_risk_not_allowed
  ok c

pub record PolicyRequest : Type 0 where
  pub scope_manifest : Option ScopeManifest
  pub action_envelope : Option ActionEnvelope
  pub budget : Option BudgetSnapshot
  pub evaluated_at : Option ℕ
  pub constraints : EvaluationConstraints

pub record PolicyDecision : Type 0 where
  pub outcome : PolicyOutcome
  pub reason_codes : List PolicyReasonCode
  pub constraints : List ConstraintResult

abbrev pub is_code : PolicyReasonCode → PolicyReasonCode → Bool
is_code a b = same PolicyReasonCode-discrete a b

abbrev pub has_code : PolicyReasonCode → List PolicyReasonCode → Bool
has_code c = any (λ x. is_code x c)

unfoldable pub codes_unique : List PolicyReasonCode → Bool
codes_unique [] = true
codes_unique (c ∷ cs) = not (has_code c cs) && codes_unique cs

-- The reason codes of the failed constraints.
unfoldable pub failed_codes : List ConstraintResult → List (Option PolicyReasonCode)
failed_codes [] = []
failed_codes (r ∷ rs) =
    let rest = failed_codes rs in if is_failed r.status then r.reason_code ∷ rest else rest

-- `==` on a tuple of codes and one of codes that may be missing.
unfoldable pub same_codes : List PolicyReasonCode → List (Option PolicyReasonCode) → Bool
same_codes [] [] = true
same_codes [] (c ∷ cs) = false
same_codes (c ∷ cs) [] = false
same_codes (c ∷ cs) (none ∷ ds) = false
same_codes (c ∷ cs) (some d ∷ ds) = is_code c d && same_codes cs ds

abbrev pub is_allow : PolicyOutcome → Bool
is_allow allow = true
is_allow _ = false

abbrev pub is_require_approval : PolicyOutcome → Bool
is_require_approval require_approval = true
is_require_approval _ = false

abbrev pub is_just : PolicyReasonCode → List PolicyReasonCode → Bool
is_just c (x ∷ []) = is_code x c
is_just c _ = false

abbrev reasons_match : PolicyDecision → Result ModelError (Unit {0})
reasons_match d =
    if is_allow d.outcome
    then raise_if
        (not (is_just policy_allowed d.reason_codes) || not (is_empty (failed_codes d.constraints)))
        allowed_with_failures
    else raise_if (not (same_codes d.reason_codes (failed_codes d.constraints))) reasons_differ

-- `decision_shape_is_coherent`.
unfoldable pub validate_decision : PolicyDecision → Result ModelError PolicyDecision
validate_decision d = do
  raise_if (is_empty d.reason_codes) no_reason
  raise_if (not (codes_unique d.reason_codes)) reason_repeats
  reasons_match d
  raise_if (is_require_approval d.outcome && not (is_just approval_missing d.reason_codes))
      not_approval_only
  ok d
