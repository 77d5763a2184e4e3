-- ===== src/Contracts/Actions.antt =====
-- packages/contracts/src/stateweaver/contracts/actions.py: the actions, the envelope with its check, and its
-- authorization by a manifest.
use stateweaver.Common.{
  ℕ, Bool, true, false, not, ◌&&◌, Option, none, Result, ok, raise_if, ◌>>◌, same, is_some,
}
use stateweaver.Common.{Text}
use stateweaver.Contracts.Scope.{
  ScopeAction, http_request, browser_interaction, queue_reorder, controlled_time, session_rotation,
  ScopeAction-discrete, AuthorizationRequirement, approval_required, denied, unspecified, RiskClass,
  passive, elevated_reversible, RiskClass-discrete, HttpMethod, ScopeManifest, requirement_for,
  valid_at,
}

pub record ActionTarget : Type 0 where
  pub host : ℕ
  pub port : ℕ
  pub path : Text

-- The `Action` union, with the fields that some part reads.
pub data Action : Type 0 where
  http_request_action :
      (method : Option HttpMethod) (target : Option ActionTarget) (identity : Option Text)
      (body_artifact : Option ℕ)
      → Action
  browser_navigate : (target : ActionTarget) (identity : Option Text) → Action
  browser_click queue_reorder_action queue_release time_set : Action
  browser_fill : (value_artifact : ℕ) → Action
  time_advance : (milliseconds : ℕ) → Action
  session_rotate : (identity : Text) → Action

-- `details` stands for the fields that no part modelled here reads.
pub record ActionEnvelope : Type 0 where
  pub action_id : ℕ
  pub world_id : ℕ
  pub idempotency_key : ℕ
  pub policy_decision_ref : ℕ
  pub sequence : ℕ
  pub details : ℕ
  pub scope_action : ScopeAction
  pub action : Action
  pub risk_class : RiskClass
  pub approval_ref : Option ℕ
  pub timeout_ms : ℕ

-- `_ACTION_SCOPE`.
unfoldable pub action_scope : Action → ScopeAction
action_scope (http_request_action _ _ _ _) = http_request
action_scope (browser_navigate _ _) = browser_interaction
action_scope browser_click = browser_interaction
action_scope (browser_fill _) = browser_interaction
action_scope queue_reorder_action = queue_reorder
action_scope queue_release = queue_reorder
action_scope (time_advance _) = controlled_time
action_scope time_set = controlled_time
action_scope (session_rotate _) = session_rotation

abbrev targetless_http : Action → Bool
targetless_http (http_request_action _ none _ _) = true
targetless_http _ = false

abbrev may_be_passive : Action → Bool
may_be_passive (http_request_action _ _ _ _) = true
may_be_passive (browser_navigate _ _) = true
may_be_passive _ = false

pub data EnvelopeError : Type 0 where
  wrong_scope unresolved_template approval_absent not_passive : EnvelopeError

-- `authorization_metadata_is_coherent`.
unfoldable pub validate_envelope : ActionEnvelope → Result EnvelopeError ActionEnvelope
unfolding action_scope
validate_envelope e = do
  raise_if (not (same ScopeAction-discrete e.scope_action (action_scope e.action))) wrong_scope
  raise_if (targetless_http e.action) unresolved_template
  raise_if
      (same RiskClass-discrete e.risk_class elevated_reversible && not (is_some e.approval_ref))
      approval_absent
  raise_if (same RiskClass-discrete e.risk_class passive && not (may_be_passive e.action))
      not_passive
  ok e

pub data AuthorizationError : Type 0 where
  scope_not_valid action_refused approval_needed : AuthorizationError

abbrev refuses : AuthorizationRequirement → Bool
refuses denied = true
refuses unspecified = true
refuses _ = false

abbrev asks_approval : AuthorizationRequirement → Bool
asks_approval approval_required = true
asks_approval _ = false

-- `validate_scope_authorization`.
unfoldable pub validate_scope_authorization :
    ScopeManifest → ActionEnvelope → ℕ → Result AuthorizationError (Unit {0})
validate_scope_authorization m e now = do
  raise_if (not (valid_at m.validity now)) scope_not_valid
  let requirement = requirement_for m.actions e.scope_action
  raise_if (refuses requirement) action_refused
  raise_if (asks_approval requirement && not (is_some e.approval_ref)) approval_needed
