-- ===== src/Policy/Checks.antt =====
-- `_evaluate_typed` of packages/policy/src/stateweaver/policy/evaluator.py: one function for each of the
-- ten constraints.
use stateweaver.Common.{
  ℕ, ◌+◌, Bool, true, false, not, ◌&&◌, Option, none, some, List, [], ◌∷◌, ltb, any, is_some,
  if◌then◌else◌,
}
use stateweaver.Common.{Text}
use stateweaver.Contracts.Scope.{
  ScopeManifest, AuthorizationRequirement, approval_required, denied, unspecified, RiskClass,
  requirement_for,
}
use stateweaver.Contracts.Actions.{ActionTarget, Action, ActionEnvelope}
use stateweaver.Policy.Models.{
  context_missing, scope_not_yet_valid, scope_expired, action_explicitly_denied, action_not_listed,
  approval_missing, identity_missing, identity_not_allowed, target_missing, target_not_included,
  target_excluded, request_budget_exhausted, write_budget_exhausted, timeout_limit_exceeded,
  risk_class_disallowed, risk_underclassified, context_complete, scope_validity,
  action_authorization, approval, identity, target, request_budget, write_budget, timeout,
  risk_class, ConstraintResult, BudgetSnapshot, PolicyRequest, has_risk,
}
use stateweaver.Policy.Actions.{
  pass, fail, skip, identity_is_allowed, selector_matches, is_write_action, minimum_risk_rank,
  risk_rank, identity_handle, target_of, over_capacity,
}

module _ (q : PolicyRequest) where
  unfoldable pub check_context : ConstraintResult
  check_context =
      if is_some q.scope_manifest
        && is_some q.action_envelope
        && is_some q.budget
        && is_some q.evaluated_at
      then pass context_complete
      else fail context_complete context_missing

  abbrev pub too_early : ScopeManifest → ℕ → Bool
  too_early m now = elim m.validity.not_before [ none ↦ false | some start ↦ ltb now start ]

  abbrev pub check_interval : ScopeManifest → ℕ → ConstraintResult
  check_interval m now =
      if too_early m now
      then fail scope_validity scope_not_yet_valid
      else if ltb m.validity.expires_at now
      then fail scope_validity scope_expired
      else pass scope_validity

  unfoldable pub check_validity : ConstraintResult
  check_validity = elim q.scope_manifest [
    | none ↦ skip scope_validity
    | some m ↦ elim q.evaluated_at [ none ↦ skip scope_validity | some now ↦ check_interval m now ]
  ]

  -- `requirement`.
  unfoldable pub requirement : Option AuthorizationRequirement
  requirement = elim q.scope_manifest [
    | none ↦ none
    | some m ↦ elim q.action_envelope [
      | none ↦ none
      | some e ↦ some (requirement_for m.actions e.scope_action)
    ]
  ]

  unfoldable pub check_authorization : ConstraintResult
  check_authorization = elim requirement [
    | none ↦ skip action_authorization
    | some denied ↦ fail action_authorization action_explicitly_denied
    | some unspecified ↦ fail action_authorization action_not_listed
    | some _ ↦ pass action_authorization
  ]

  abbrev pub needs_approval : AuthorizationRequirement → ActionEnvelope → Bool
  needs_approval approval_required e = true
  needs_approval _ e = has_risk e.risk_class q.constraints.approval_required_risk_classes

  unfoldable pub check_approval : ConstraintResult
  check_approval = elim q.action_envelope [
    | none ↦ skip approval
    | some e ↦ elim requirement [
      | none ↦ skip approval
      | some r ↦
          if needs_approval r e && not (is_some e.approval_ref)
          then fail approval approval_missing
          else pass approval
    ]
  ]

  abbrev pub check_name : ScopeManifest → Option (Option Text) → ConstraintResult
  check_name m none = skip identity
  check_name m (some none) = fail identity identity_missing
  check_name m (some (some i)) =
      if identity_is_allowed i m.identities
      then pass identity
      else fail identity identity_not_allowed

  unfoldable pub check_identity : ConstraintResult
  check_identity = elim q.scope_manifest [
    | none ↦ skip identity
    | some m ↦ elim q.action_envelope [
      | none ↦ skip identity
      | some e ↦ check_name m (identity_handle e.action)
    ]
  ]

  abbrev pub check_place : ScopeManifest → Option (Option ActionTarget) → ConstraintResult
  check_place m none = skip target
  check_place m (some none) = fail target target_missing
  check_place m (some (some t)) =
      if any (λ s. selector_matches s t) m.exclude
      then fail target target_excluded
      else if not (any (λ s. selector_matches s t) m.include)
      then fail target target_not_included
      else pass target

  unfoldable pub check_target : ConstraintResult
  check_target = elim q.scope_manifest [
    | none ↦ skip target
    | some m ↦ elim q.action_envelope [
      | none ↦ skip target
      | some e ↦ check_place m (target_of e.action)
    ]
  ]

  unfoldable pub check_requests : ConstraintResult
  check_requests = elim q.scope_manifest [
    | none ↦ skip request_budget
    | some m ↦ elim q.budget [
      | none ↦ skip request_budget
      | some b ↦
          if over_capacity m.limits.requests_per_second b
          then fail request_budget request_budget_exhausted
          else pass request_budget
    ]
  ]

  abbrev pub check_used : ScopeManifest → Action → BudgetSnapshot → ConstraintResult
  check_used m a b =
      if not (is_write_action a)
      then skip write_budget
      else if ltb m.limits.max_write_requests (b.write_requests_used + 1)
      then fail write_budget write_budget_exhausted
      else pass write_budget

  unfoldable pub check_writes : ConstraintResult
  check_writes = elim q.scope_manifest [
    | none ↦ skip write_budget
    | some m ↦ elim q.action_envelope [
      | none ↦ skip write_budget
      | some e ↦ elim q.budget [ none ↦ skip write_budget | some b ↦ check_used m e.action b ]
    ]
  ]

  unfoldable pub check_timeout : ConstraintResult
  check_timeout = elim q.action_envelope [
    | none ↦ skip timeout
    | some e ↦
        if ltb q.constraints.max_timeout_ms e.timeout_ms
        then fail timeout timeout_limit_exceeded
        else pass timeout
  ]

  abbrev pub check_rank : RiskClass → Option ℕ → ConstraintResult
  check_rank r none = fail risk_class risk_class_disallowed
  check_rank r (some least) =
      if ltb (risk_rank r) least then fail risk_class risk_underclassified else pass risk_class

  unfoldable pub check_risk : ConstraintResult
  check_risk = elim q.action_envelope [
    | none ↦ skip risk_class
    | some e ↦
        if not (has_risk e.risk_class q.constraints.allowed_risk_classes)
        then fail risk_class risk_class_disallowed
        else check_rank e.risk_class (minimum_risk_rank e.action)
  ]

  -- `results`.
  unfoldable pub results : List ConstraintResult
  results =
      check_context ∷ check_validity ∷ check_authorization ∷ check_approval ∷ check_identity
      ∷ check_target ∷ check_requests ∷ check_writes ∷ check_timeout ∷ check_risk ∷ []
