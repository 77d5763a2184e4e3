-- ===== src/Policy/Evaluator.antt =====
-- The decision of `_evaluate_typed`, and `evaluate`, of
-- packages/policy/src/stateweaver/policy/evaluator.py.
use stateweaver.Common.{
  not, Option, none, some, List, [], ◌∷◌, Result, ok, err, is_empty, if◌then◌else◌,
}
use stateweaver.Policy.Models.{
  PolicyOutcome, allow, deny, require_approval, PolicyReasonCode, policy_allowed, malformed_request,
  approval_missing, context_complete, ModelError, PolicyRequest, PolicyDecision, is_code, is_just,
  failed_codes, validate_decision,
}
use stateweaver.Policy.Actions.{fail}
use stateweaver.Policy.Checks.{results}

-- `tuple(code for code in failed_codes if code is not None)`.
unfoldable pub given_codes : List (Option PolicyReasonCode) → List PolicyReasonCode
given_codes [] = []
given_codes (none ∷ cs) = given_codes cs
given_codes (some c ∷ cs) = c ∷ given_codes cs

unfoldable pub deny_codes : List PolicyReasonCode → List PolicyReasonCode
deny_codes [] = []
deny_codes (c ∷ cs) =
    let rest = deny_codes cs in if is_code c approval_missing then rest else c ∷ rest

-- The outcome and the reasons of the decision.
unfoldable pub conclude : List PolicyReasonCode → PolicyOutcome × List PolicyReasonCode
conclude codes =
    if not (is_empty (deny_codes codes))
    then (deny, codes)
    else if is_just approval_missing codes
    then (require_approval, codes)
    else if not (is_empty codes)
    then (deny, codes)
    else (allow, policy_allowed ∷ [])

-- `_evaluate_typed`.
unfoldable pub evaluate_typed : PolicyRequest → Result ModelError PolicyDecision
evaluate_typed q =
    let (outcome, codes) = conclude (given_codes (failed_codes (results q))) in
    validate_decision (record { outcome = outcome; reason_codes = codes; constraints = results q })

-- `_malformed_decision`.
unfoldable pub malformed_decision : PolicyDecision
malformed_decision = record {
  outcome = deny;
  reason_codes = malformed_request ∷ [];
  constraints = fail context_complete malformed_request ∷ [];
}

-- `evaluate`: an object that is no request, or an exception, is denied.
unfoldable pub evaluate : Option PolicyRequest → PolicyDecision
evaluate none = malformed_decision
evaluate (some q) = elim (evaluate_typed q) [ ok d ↦ d | err _ ↦ malformed_decision ]
